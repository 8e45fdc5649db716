-- ===== src/Engine/Weights.antt =====
-- ripcord/engine.py: `choose_variant`, its loop and the bands of buckets of its variants.
use native.Mathlib.Nat.{zero-add}
use ripcord.Prelude.{
  ℕ, ◌+◌, ◌*◌, ◌≤◌, ◌<◌, String, ◌≡◌, refl, ap, ◌∙◌, sym, Bool, true, false, ◌&&◌, Option, none,
  some, List, [], ◌∷◌, arith, ◌==◌, eq_iff, leb, ltb, is_in, is_distinct, is_distinct-perm,
  map-perm, count_below, count_below_interval, if◌then◌else◌, is_empty, ◌⊎◌, inl, inr, Bool-cases,
}
use ripcord.Engine.Spec.{VariantSpec, FlagSpec}
use ripcord.Engine.Bucket.{bucket_for, bucket_count, variant_salt}
use ripcord.Engine.Variants.{
  find_key, insert_by_key, sort_by_key, walk, total_weight, pick, choose_variant,
}
use ripcord.Engine.Rollout.{bucket_for-lt}
use ripcord.Engine.Sorting.{keys, find-sort, total-sort, sort_perm}

abbrev pub serves : Option VariantSpec → String → Bool
serves none k = false
serves (some v) k = v.key == k

-- The weights in front of the first variant with a key.
before : List VariantSpec → String → ℕ
before [] k = 0
before (v ∷ vs) k = if v.key == k then 0 else v.weight + before vs k

serves-walk_absent :
    (b t c : ℕ) (vs : List VariantSpec) (k : String)
    → is_in k (keys vs) ≡ false
    → serves (walk b t c vs) k ≡ false
unfolding walk
serves-walk_absent b t c [] k h = refl
serves-walk_absent b t c (v ∷ vs) k h = ground (arith, serves-walk_absent b t (c + v.weight) vs k)

serves-walk :
    (b c : ℕ) (vs : List VariantSpec) (k : String) (u : VariantSpec)
    → is_distinct (keys vs) ≡ true
    → find_key vs k ≡ some u
    → c * 100 ≤ b
    → serves (walk b 100 c vs) k
      ≡ (leb ((c + before vs k) * 100) b && ltb b ((c + before vs k + u.weight) * 100))
unfolding walk before find_key
serves-walk b c [] k u d f h = absurd (cc)
serves-walk b c (v ∷ vs) k u d f h = ground (
  arith,
  eq_iff v.key k,
  serves-walk b (c + v.weight) vs k u,
  serves-walk_absent b 100 (c + v.weight) vs v.key,
)

-- `v` is an element of a list.
abbrev pub Has : VariantSpec → List VariantSpec → Type 0
Has v [] = ⊥
Has v (w ∷ ws) = (v ≡ w) ⊎ Has v ws

-- A loop that starts at or below the bucket's position, with the position below the sum of all
-- weights, ends at a variant of positive weight.
walk_served :
    (b t c : ℕ) (vs : List VariantSpec)
    → c * bucket_count ≤ b * t
    → b * t < (c + total_weight vs) * bucket_count
    → (v : VariantSpec) × (walk b t c vs ≡ some v) × Has v vs × (0 < v.weight)
unfolding walk
walk_served b t c [] h l = absurd (omega arith)
walk_served b t c (v ∷ vs) h l = elim (Bool-cases (ltb (b * t) ((c + v.weight) * bucket_count))) [
  | inl here ↦ (v, rw here, inl refl, ground arith)
  | inr past ↦
      let (w, e, m, pos) = walk_served b t (c + v.weight) vs (ground arith) (omega arith) in
      (w, rw past e, inr m, pos)
]

Has-insert : (x v : VariantSpec) (l : List VariantSpec) → Has x (insert_by_key v l) → Has x (v ∷ l)
unfolding insert_by_key
Has-insert x v [] h = h
Has-insert x v (w ∷ l) h = ground (arith, Has-insert x v l)

pub Has-sort : (x : VariantSpec) (l : List VariantSpec) → Has x (sort_by_key l) → Has x l
unfolding sort_by_key
Has-sort x [] h = h
Has-sort x (v ∷ l) h = ground (arith, Has-insert x v (sort_by_key l), Has-sort x l)

pick_served :
    (ordered : List VariantSpec) (b : ℕ)
    → 0 < total_weight ordered
    → b < bucket_count
    → (v : VariantSpec) × (pick ordered b ≡ some v)
      × (walk b (total_weight ordered) 0 ordered ≡ some v)
      × Has v ordered
      × (0 < v.weight)
unfolding pick
pick_served ordered b h l =
    let (v, e, m, pos) =
      walk_served b (total_weight ordered) 0 ordered (omega arith) (grind arith) in
    (v, ground arith, e, m, pos)

not_empty : (l : List VariantSpec) → 0 < total_weight l → is_empty l ≡ false
not_empty [] h = absurd (omega arith)
not_empty (v ∷ l) h = refl

-- With a positive total the loop itself finds the variant, in the model's exact arithmetic.
pub choose_variant_served :
    (md5 : String → String) (flag : FlagSpec) (user : String)
    → 0 < total_weight flag.variants
    → (v : VariantSpec) × (choose_variant md5 flag user ≡ some v)
      × (walk
            (bucket_for md5 flag.key user variant_salt)
            (total_weight flag.variants)
            0
            (sort_by_key flag.variants)
          ≡ some v)
      × Has v flag.variants
      × (0 < v.weight)
unfolding choose_variant
choose_variant_served md5 flag user h =
    let total : total_weight (sort_by_key flag.variants) ≡ total_weight flag.variants =
      total-sort flag.variants in
    let (v, chosen, walked, m, pos) =
      pick_served (sort_by_key flag.variants) (bucket_for md5 flag.key user variant_salt)
        (omega arith) (bucket_for-lt md5 flag.key user variant_salt) in
    (v, rw (not_empty flag.variants h) chosen, rw total at walked, Has-sort v flag.variants m, pos)

before_bound :
    (vs : List VariantSpec) (k : String) (u : VariantSpec)
    → find_key vs k ≡ some u
    → before vs k + u.weight ≤ total_weight vs
unfolding find_key before
before_bound [] k u f = absurd (cc)
before_bound (v ∷ vs) k u f = ground (arith, before_bound vs k u)

-- The user's band among the sorted variants, when the weights sum to 100.
serves-choose :
    (md5 : String → String) (flag : FlagSpec) (user : String) (u : VariantSpec)
    → is_distinct (keys flag.variants) ≡ true
    → total_weight flag.variants ≡ 100
    → find_key flag.variants u.key ≡ some u
    → serves (choose_variant md5 flag user) u.key ≡ (
        leb
          (before (sort_by_key flag.variants) u.key * 100)
          (bucket_for md5 flag.key user variant_salt)
        && ltb
            (bucket_for md5 flag.key user variant_salt)
            ((before (sort_by_key flag.variants) u.key + u.weight) * 100))
serves-choose md5 flag user u d t f =
    let sorted = sort_by_key flag.variants in
    let (v, chosen, walked, _, _) = choose_variant_served md5 flag user (omega arith) in
    let bucket = bucket_for md5 flag.key user variant_salt in
    ap (λ o. serves o u.key) (chosen ∙ sym walked)
    ∙ ap (λ n. serves (walk bucket n 0 sorted) u.key) t
    ∙ rw zero-add at (
        serves-walk bucket 0 sorted u.key u
          (is_distinct-perm (map-perm (λ v. v.key) (sort_perm flag.variants)) ∙ d)
          (find-sort flag.variants u.key ∙ f) (omega arith))

-- Weights that sum to 100 are the exact shares of a variant-salted bucketing.
pub choose_variant_share :
    (md5 : String → String) (flag : FlagSpec) (user_of : ℕ → String) (u : VariantSpec)
    → ((b : ℕ) → b < bucket_count → bucket_for md5 flag.key (user_of b) variant_salt ≡ b)
    → is_distinct (keys flag.variants) ≡ true
    → total_weight flag.variants ≡ 100
    → find_key flag.variants u.key ≡ some u
    → count_below bucket_count (λ b. serves (choose_variant md5 flag (user_of b)) u.key)
      ≡ u.weight * 100
choose_variant_share md5 flag user_of u one_each d t f =
    let sorted = sort_by_key flag.variants in
    let found : find_key sorted u.key ≡ some u = find-sort flag.variants u.key ∙ f in
    let total : total_weight sorted ≡ 100 = total-sort flag.variants ∙ t in
    let low = before sorted u.key * 100 in
    let high = (before sorted u.key + u.weight) * 100 in
    count_below_interval bucket_count low high _ (λ b l.
      serves-choose md5 flag (user_of b) u d t f ∙ ap (λ n. leb low n && ltb n high) (one_each b l))
    ∙ omega (arith, before_bound sorted u.key u found)
