-- ===== src/Engine/Variants.antt =====
-- ripcord/engine.py: `_find_variant` and `choose_variant`.
--
-- The source compares the float `bucket * total / 10000` with the sum of weights. Both are compared
-- here after multiplication by 10000. The two tests agree while the weights sum to less than 2^38:
-- the quotient and the sum then differ by at least 1/10000 or not at all, and a double near such a
-- number is closer to it than that.
use ripcord.Prelude.{
  ℕ, ◌+◌, ◌*◌, String, Option, none, some, List, [], ◌∷◌, ◌==◌, ltb, leb, sum_of, find?, is_empty,
  str_le, if◌then◌else◌,
}
use ripcord.Engine.Spec.{VariantSpec, FlagSpec}
use ripcord.Engine.Bucket.{bucket_for, bucket_count, variant_salt}

unfoldable pub find_key : List VariantSpec → String → Option VariantSpec
find_key variants key = find? (λ v. v.key == key) variants

unfoldable pub find_variant : FlagSpec → Option String → Option VariantSpec
unfolding find_key
find_variant flag none = none
find_variant flag (some key) = find_key flag.variants key

-- `sorted(variants, key=lambda v: v.key)`, a stable sort: an insertion puts an element before those
-- with the same key, and the first element is inserted last.
unfoldable pub insert_by_key : VariantSpec → List VariantSpec → List VariantSpec
insert_by_key v [] = v ∷ []
insert_by_key v (w ∷ ws) = if str_le v.key w.key then v ∷ w ∷ ws else w ∷ insert_by_key v ws

unfoldable pub sort_by_key : List VariantSpec → List VariantSpec
unfolding insert_by_key
sort_by_key [] = []
sort_by_key (v ∷ vs) = insert_by_key v (sort_by_key vs)

-- `ordered[-1]`
unfoldable pub last? : List VariantSpec → Option VariantSpec
last? [] = none
last? (v ∷ []) = some v
last? (v ∷ w ∷ ws) = last? (w ∷ ws)

-- The loop over `ordered`, `cumulative` being the weights that it has passed.
unfoldable pub walk : ℕ → ℕ → ℕ → List VariantSpec → Option VariantSpec
walk bucket total cumulative [] = none
walk bucket total cumulative (v ∷ vs) =
    if ltb (bucket * total) ((cumulative + v.weight) * bucket_count)
    then some v
    else walk bucket total (cumulative + v.weight) vs

abbrev pub total_weight : List VariantSpec → ℕ
total_weight = sum_of (λ v. v.weight)

-- `ordered[0]`
unfoldable pub first? : List VariantSpec → Option VariantSpec
first? [] = none
first? (v ∷ vs) = some v

-- The variant that a bucket receives, of the sorted variants.
unfoldable pub pick : List VariantSpec → ℕ → Option VariantSpec
unfolding first? last? walk
pick ordered bucket =
    if leb (total_weight ordered) 0
    then first? ordered
    else elim (walk bucket (total_weight ordered) 0 ordered) [
      | some v ↦ some v
      | none ↦ last? ordered
    ]

unfoldable pub choose_variant : (String → String) → FlagSpec → String → Option VariantSpec
choose_variant md5 flag user_id =
    if is_empty flag.variants
    then none
    else pick (sort_by_key flag.variants) (bucket_for md5 flag.key user_id variant_salt)
