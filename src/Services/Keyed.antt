-- ===== src/Services/Keyed.antt =====
-- The dicts that ripcord/services.py and ripcord/sdk/client.py fill from a list of flags.
use ripcord.Prelude.{
  String, ◌≡◌, refl, ap, ◌∙◌, sym, true, false, Option, none, some, List, [], ◌∷◌, map, arith, ◌==◌,
  eq_iff, find?, is_in, is_distinct, Bool-cases, inl, inr,
}
use ripcord.Prelude.Dict
use ripcord.Prelude.Dict.{Dict, get-put, get-empty}
use ripcord.Models.{Flag}

abbrev pub map_option {ℓ κ} : {A : Type ℓ} {B : Type κ} → (A → B) → Option A → Option B
map_option f none = none
map_option f (some a) = some (f a)

find-absent :
    (flags : List Flag) (k : String)
    → is_in k (map (λ f. f.key) flags) ≡ false
    → find? (λ f. f.key == k) flags ≡ none
find-absent [] k h = refl
find-absent (flag ∷ flags) k h = ground (arith, find-absent flags k)

module _ {ℓ} {V : Type ℓ} (h : Flag → V) where
  abbrev pub put_all : List Flag → Dict V → Dict V
  put_all [] d = d
  put_all (flag ∷ flags) d = put_all flags (Dict.put d flag.key (h flag))

  abbrev or_else : Option V → Option Flag → Option V
  or_else default none = default
  or_else default (some flag) = some (h flag)

  or_else-empty : (k : String) (o : Option Flag) → or_else (Dict.get [] k) o ≡ map_option h o
  or_else-empty k none = get-empty k
  or_else-empty k (some flag) = refl

  get-put_all_from :
      (flags : List Flag) (d : Dict V) (k : String)
      → is_distinct (map (λ f. f.key) flags) ≡ true
      → Dict.get (put_all flags d) k ≡ or_else (Dict.get d k) (find? (λ f. f.key == k) flags)
  get-put_all_from [] d k e = refl
  get-put_all_from (flag ∷ flags) d k e =
      let later = get-put_all_from flags (Dict.put d flag.key (h flag)) k (ground arith) in
      let here = get-put d flag.key k (h flag) in
      elim (Bool-cases (flag.key == k)) [
        | inl this ↦
            let id : flag.key ≡ k = (eq_iff flag.key k).0 this in
            let gone : find? (λ f. f.key == k) flags ≡ none =
              find-absent flags k
                (ap (λ n. is_in n (map (λ f. f.key) flags)) (sym id) ∙ ground arith) in
            later ∙ rw (gone, this) (here ∙ rw this refl)
        | inr other ↦
            later ∙ ap (λ o. or_else o (find? (λ f. f.key == k) flags)) here ∙ rw other refl
      ]

  -- Each key has the value of its flag, and no other key is there.
  pub get-put_all :
      (flags : List Flag) (k : String)
      → is_distinct (map (λ f. f.key) flags) ≡ true
      → Dict.get (put_all flags []) k ≡ map_option h (find? (λ f. f.key == k) flags)
  get-put_all flags k e =
      get-put_all_from flags [] k e ∙ or_else-empty k (find? (λ f. f.key == k) flags)
