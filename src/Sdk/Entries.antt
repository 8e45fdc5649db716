-- ===== src/Sdk/Entries.antt =====
-- ripcord/cache.py and ripcord/services.py: the entries of the cached ruleset, and those of a mapping that
-- was built from the table.
use mathlib.Core.Path.{subst}
use ripcord.Prelude.{
  String, ◌≡◌, refl, ap, ◌∙◌, sym, Bool, true, false, not, Option, none, some, List, [], ◌∷◌, map,
  select, is_in, is_some, is_distinct, find?, All, arith, ◌==◌, eq_iff, eq_refl, Option-cases,
  Bool-cases, inl, inr, if◌then◌else◌,
}
use ripcord.Prelude.Dict
use ripcord.Prelude.Dict.{Dict}
use ripcord.Models.{Flag}
use ripcord.Cache.Redis.{Redis}
use ripcord.Cache.Ruleset.{complete_field, ruleset_key, values_except, read_flag, hit, absent}
use ripcord.Cache.System.{Answers}
use ripcord.Services.Store.{FlagStore}
use ripcord.Services.Payload.{Codec, flag_payload, ruleset_mapping}
use ripcord.Services.Cached.{get-table}
use ripcord.Sdk.Fresh.{IsEntry}

abbrev is_flag : String × String → Bool
is_flag e = not (e.0 == complete_field)

-- The entries of flags in a hash.
abbrev pub flag_entries : Dict String → List (String × String)
flag_entries d = select is_flag d

pub values_except-select :
    (d : Dict String) → values_except complete_field d ≡ map (λ e. e.1) (flag_entries d)
unfolding values_except
values_except-select [] = refl
values_except-select ((k, v) ∷ d) = ground (arith, values_except-select d)

-- Either of two lists.
All-if :
    (P : String × String → Type 0) (b : Bool) (xs ys : List (String × String))
    → (b ≡ true → All P xs)
    → (b ≡ false → All P ys)
    → All P (if b then xs else ys)
All-if P true xs ys f g = f refl
All-if P false xs ys f g = g refl

All-select :
    (P Q : String × String → Type 0) (d : List (String × String))
    → ((e : String × String) → is_flag e ≡ true → P e → Q e)
    → All P d
    → All Q (flag_entries d)
All-select P Q [] f h = tt
All-select P Q (e ∷ d) f (p, h) =
    let rest = All-select P Q d f h in
    All-if Q (is_flag e) (e ∷ flag_entries d) (flag_entries d) (λ flag. (f e flag p, rest))
      (λ _. rest)

-- A key that no entry of a flag has is not in the hash.
pub get-absent :
    (d : Dict String) (k : String)
    → (complete_field == k) ≡ false
    → is_in k (map (λ e. e.0) (flag_entries d)) ≡ false
    → Dict.get d k ≡ none
unfolding Dict.get
get-absent [] k other h = refl
get-absent ((j, v) ∷ d) k other h =
    ground (arith, get-absent d k, eq_iff j k, eq_iff j complete_field, eq_iff complete_field k)

pub get-missing :
    (d : Dict String) (k : String) → is_in k (map (λ e. e.0) d) ≡ false → Dict.get d k ≡ none
unfolding Dict.get
get-missing [] k h = refl
get-missing ((j, v) ∷ d) k h = ground (arith, get-missing d k)

All-put :
    (P : String × String → Type 0) (d : Dict String) (key value : String)
    → P (key, value)
    → All P d
    → All P (Dict.put d key value)
unfolding Dict.put
All-put P [] key value p h = (p, tt)
All-put P ((k, v) ∷ d) key value p (q, h) =
    All-if P (k == key) ((key, value) ∷ d) ((k, v) ∷ Dict.put d key value) (λ _. (p, h))
      (λ _. (q, All-put P d key value p h))

other_key :
    (flag : Flag) (k : String) (keys : List String)
    → is_in k keys ≡ true
    → is_distinct (flag.key ∷ keys) ≡ true
    → (flag.key == k) ≡ false
other_key flag k keys there d = elim (Bool-cases (flag.key == k)) [
  | inl same ↦
      let again : is_in flag.key keys ≡ true =
        ap (λ n. is_in n keys) ((eq_iff flag.key k).0 same) ∙ there in
      absurd (ground arith)
  | inr other ↦ other
]

-- In a list of distinct keys each flag is found under its own.
find-own :
    (look : String → Option Flag) (flags : List Flag)
    → ((k : String)
        → is_in k (map (λ f. f.key) flags) ≡ true
        → look k ≡ find? (λ f. f.key == k) flags)
    → is_distinct (map (λ f. f.key) flags) ≡ true
    → All (λ f. look f.key ≡ some f) flags
find-own look [] h d = tt
find-own look (flag ∷ flags) h d = (
  h flag.key (rw (eq_refl flag.key) refl) ∙ rw (eq_refl flag.key) refl,
  find-own look flags
      (λ k there.
        let apart = other_key flag k (map (λ f. f.key) flags) there d in
        h k (rw (apart, there) refl) ∙ rw apart refl)
      (ground arith),
)

module _ (redis : Redis) (db : FlagStore) (codec : Codec) where
  open redis use {hget, hgetall, hgetall-hget}
  open db use {State, select_flag, select_all, select_all-select, select_all_distinct}

  read_flag-hit :
      (s : redis.State) (k text : String)
      → hget s ruleset_key k ≡ some text
      → read_flag redis s k ≡ hit text
  unfolding read_flag
  read_flag-hit s k text e = rw (read_flag, e) refl

  pub read_flag-absent :
      (s : redis.State) (k : String)
      → hget s ruleset_key k ≡ none
      → is_some (hget s ruleset_key complete_field) ≡ true
      → read_flag redis s k ≡ absent
  unfolding read_flag
  read_flag-absent s k e marked = rw (read_flag, e, marked) refl

  ruleset_mapping-IsEntry :
      (t : State) (key text : String)
      → Dict.get (ruleset_mapping codec (select_all t) []) key ≡ some text
      → IsEntry db codec t (key, text)
  ruleset_mapping-IsEntry t key text there = elim (Option-cases (select_flag t key)) [
    | inl gone ↦ absurd (ground (arith, get-table redis db codec (λ x. x) t key))
    | inr (flag, found) ↦ (flag, found, ground (arith, get-table redis db codec (λ x. x) t key))
  ]

  pub cached-IsEntry :
      (s : redis.State) (t : State)
      → ((k : String)
          → (complete_field == k) ≡ false
          → Answers (read_flag redis s k) (Dict.get (ruleset_mapping codec (select_all t) []) k))
      → All (λ e. hget s ruleset_key e.0 ≡ some e.1) (hgetall s ruleset_key)
      → All (IsEntry db codec t) (flag_entries (hgetall s ruleset_key))
  cached-IsEntry s t agrees listed =
      All-select (λ e. hget s ruleset_key e.0 ≡ some e.1) (IsEntry db codec t)
        (hgetall s ruleset_key)
        (λ e flag there. ruleset_mapping-IsEntry t e.0 e.1 (
          subst (λ a. Answers a (Dict.get (ruleset_mapping codec (select_all t) []) e.0))
            (read_flag-hit s e.0 e.1 there)
            (agrees e.0 (ground (arith, eq_iff e.0 complete_field, eq_iff complete_field e.0)))))
        listed

  mapping-IsEntry :
      (t : State) (flags : List Flag) (d : Dict String)
      → All (λ f. select_flag t f.key ≡ some f) flags
      → All (IsEntry db codec t) d
      → All (IsEntry db codec t) (ruleset_mapping codec flags d)
  unfolding ruleset_mapping
  mapping-IsEntry t [] d own h = h
  mapping-IsEntry t (flag ∷ flags) d (found, own) h =
      mapping-IsEntry t flags (Dict.put d flag.key (flag_payload codec flag)) own
        (All-put (IsEntry db codec t) d flag.key (flag_payload codec flag) (flag, found, refl) h)

  pub built-IsEntry :
      (t : State) → All (IsEntry db codec t) (ruleset_mapping codec (select_all t) [])
  built-IsEntry t =
      mapping-IsEntry t (select_all t) []
        (find-own (select_flag t) (select_all t) (λ k _. sym (select_all-select t k))
          (select_all_distinct t))
        tt
