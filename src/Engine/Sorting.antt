-- ===== src/Engine/Sorting.antt =====
-- ripcord/engine.py: the sort of `choose_variant`, and lookups by key.
use mathlib.Core.List.{Permᴰ}
use mathlib.Core.List.Permᴰ
use ripcord.Prelude.{
  ◌+◌, String, ◌≡◌, refl, ap, ◌∙◌, sym, true, ◌≢◌, some, List, [], ◌∷◌, map, arith, ◌==◌, eq_iff,
  is_distinct, is_distinct-perm, map-perm, str_le, false, str_le_refl, str_le_total, str_le_trans,
  str_le_antisymm, if◌then◌else◌,
}
use ripcord.Engine.Spec.{VariantSpec}
use ripcord.Engine.Variants.{find_key, insert_by_key, sort_by_key, total_weight}

abbrev pub keys : List VariantSpec → List String
keys = map (λ v. v.key)

-- Two insertions commute when the keys differ.
insert_comm :
    (v w : VariantSpec) (l : List VariantSpec)
    → v.key ≢ w.key
    → insert_by_key v (insert_by_key w l) ≡ insert_by_key w (insert_by_key v l)
unfolding insert_by_key
insert_comm v w [] h = ground (arith, str_le_total v.key w.key, str_le_antisymm v.key w.key)
insert_comm v w (x ∷ l) h = ground (
  arith,
  insert_comm v w l h,
  str_le_total v.key w.key,
  str_le_antisymm v.key w.key,
  str_le_trans v.key w.key x.key,
  str_le_trans w.key v.key x.key,
  str_le_total w.key x.key,
  str_le_total v.key x.key,
  str_le_trans v.key x.key w.key,
  str_le_trans w.key x.key v.key,
)

pub sort-perm :
    {l m : List VariantSpec}
    → Permᴰ l m
    → is_distinct (keys l) ≡ true
    → sort_by_key l ≡ sort_by_key m
unfolding sort_by_key
sort-perm Permᴰ.nil h = refl
sort-perm (Permᴰ.cons {a} {b} {l₁} {l₂} e p) h = cc (e, sort-perm p (ground arith))
sort-perm (Permᴰ.swap {a} {b} {a'} {b'} {l} e f) h =
    cc (e, f, insert_comm a b (sort_by_key l) (ground (arith, eq_iff b.key a.key)))
sort-perm (Permᴰ.trans p q) h =
    sort-perm p h ∙ sort-perm q (sym (is_distinct-perm (map-perm (λ v. v.key) p)) ∙ h)

find-insert :
    (v : VariantSpec) (l : List VariantSpec) (k : String)
    → find_key (insert_by_key v l) k ≡ (if v.key == k then some v else find_key l k)
unfolding find_key insert_by_key
find-insert v [] k = refl
find-insert v (w ∷ l) k =
    ground (arith, find-insert v l k, eq_iff v.key k, eq_iff w.key k, str_le_refl k)

-- The first variant with a key is the same before and after the sort, equal keys included.
pub find-sort : (l : List VariantSpec) (k : String) → find_key (sort_by_key l) k ≡ find_key l k
unfolding find_key sort_by_key
find-sort [] k = refl
find-sort (v ∷ l) k =
    find-insert v (sort_by_key l) k ∙ ap (λ o. if v.key == k then some v else o) (find-sort l k)

total-insert :
    (v : VariantSpec) (l : List VariantSpec)
    → total_weight (insert_by_key v l) ≡ v.weight + total_weight l
unfolding insert_by_key
total-insert v [] = refl
total-insert v (w ∷ l) = ground (arith, total-insert v l)

pub total-sort : (l : List VariantSpec) → total_weight (sort_by_key l) ≡ total_weight l
unfolding sort_by_key
total-sort [] = refl
total-sort (v ∷ l) = omega (arith, total-insert v (sort_by_key l), total-sort l)

insert_perm : (v : VariantSpec) (l : List VariantSpec) → Permᴰ (insert_by_key v l) (v ∷ l)
unfolding insert_by_key
insert_perm v [] = Permᴰ.refl (v ∷ [])
insert_perm v (w ∷ l) =
    elim (str_le v.key w.key)
      as (λ b. Permᴰ (if b then v ∷ w ∷ l else w ∷ insert_by_key v l) (v ∷ w ∷ l)) [
        | true ↦ Permᴰ.refl (v ∷ w ∷ l)
        | false ↦ Permᴰ.trans (Permᴰ.cons refl (insert_perm v l)) (Permᴰ.swap refl refl)
      ]

-- The sort only reorders.
pub sort_perm : (l : List VariantSpec) → Permᴰ (sort_by_key l) l
unfolding sort_by_key
sort_perm [] = Permᴰ.nil
sort_perm (v ∷ l) = Permᴰ.trans (insert_perm v (sort_by_key l)) (Permᴰ.cons refl (sort_perm l))
