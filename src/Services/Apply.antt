-- ===== src/Services/Apply.antt =====
-- ripcord/services.py: `_apply_variants`, the keys and the weights of the rows that it leaves.
use mathlib.Core.List.{map-append, append-nil, append_assoc}
use ripcord.Prelude.{
  ℕ, ◌+◌, String, ◌≡◌, refl, ap, ◌∙◌, sym, true, false, not, ◌&&◌, ◌||◌, none, some, List, [], ◌∷◌,
  ◌++◌, map, arith, ◌==◌, eq_iff, eq_refl, is_in, is_distinct, is_some, sum_of, Option-cases, inl,
  inr, if◌then◌else◌,
}
use ripcord.Prelude.Dict
use ripcord.Prelude.Dict.{Dict}
use ripcord.Models.{Variant}
use ripcord.Schemas.Input.{VariantIn}
use ripcord.Schemas.Validate.{variant_keys, total_in}
use ripcord.Services.Flags.{wanted, kept_rows, new_rows, apply_variants}

abbrev pub row_keys : List Variant → List String
row_keys = map (λ v. v.key)

abbrev pub row_weights : List Variant → ℕ
row_weights = sum_of (λ v. v.weight)

abbrev entry_keys : Dict VariantIn → List String
entry_keys [] = []
entry_keys ((k, v) ∷ d) = k ∷ entry_keys d

abbrev entries : List VariantIn → Dict VariantIn
entries [] = []
entries (v ∷ vs) = (v.key, v) ∷ entries vs

is_in-append : (k : String) (xs ys : List String) → is_in k (xs ++ ys) ≡ (is_in k xs || is_in k ys)
is_in-append k [] ys = refl
is_in-append k (x ∷ xs) ys = ground (arith, is_in-append k xs ys)

is_distinct-append :
    (xs ys : List String)
    → is_distinct xs ≡ true
    → is_distinct ys ≡ true
    → ((k : String) → is_in k xs ≡ true → is_in k ys ≡ false)
    → is_distinct (xs ++ ys) ≡ true
is_distinct-append [] ys dx dy apart = dy
is_distinct-append (x ∷ xs) ys dx dy apart = ground (
  arith,
  is_in-append x xs ys,
  apart x (ground (arith, eq_refl x)),
  is_distinct-append xs ys (ground arith) dy (λ k h. apart k (ground arith)),
)

is_some-get : (d : Dict VariantIn) (k : String) → is_some (Dict.get d k) ≡ is_in k (entry_keys d)
unfolding Dict.get
is_some-get [] k = refl
is_some-get ((j, v) ∷ d) k = ground (arith, is_some-get d k)

-- A key that is not there is put at the end.
put-absent :
    (d : Dict VariantIn) (k : String) (v : VariantIn)
    → is_in k (entry_keys d) ≡ false
    → Dict.put d k v ≡ d ++ ((k, v) ∷ [])
unfolding Dict.put
put-absent [] k v h = refl
put-absent ((j, w) ∷ d) k v h = ground (arith, put-absent d k v)

is_in-kept_rows :
    (rows : List Variant) (d : Dict VariantIn) (k : String)
    → is_in k (row_keys (kept_rows rows d)) ≡ (is_in k (row_keys rows) && is_in k (entry_keys d))
unfolding kept_rows
is_in-kept_rows [] d k = refl
is_in-kept_rows (row ∷ rows) d k = elim (Option-cases (Dict.get d row.key)) [
  | inl e ↦ ground (arith, is_in-kept_rows rows d k, is_some-get d row.key, eq_iff row.key k)
  | inr (v, e) ↦ ground (arith, is_in-kept_rows rows d k, is_some-get d row.key, eq_iff row.key k)
]

is_in-new_rows :
    (d : Dict VariantIn) (rows : List Variant) (k : String)
    → is_in k (row_keys (new_rows d rows))
      ≡ (is_in k (entry_keys d) && not (is_in k (row_keys rows)))
unfolding new_rows
is_in-new_rows [] rows k = refl
is_in-new_rows ((j, v) ∷ d) rows k = ground (arith, is_in-new_rows d rows k, eq_iff j k)

is_distinct-kept_rows :
    (rows : List Variant) (d : Dict VariantIn)
    → is_distinct (row_keys rows) ≡ true
    → is_distinct (row_keys (kept_rows rows d)) ≡ true
unfolding kept_rows
is_distinct-kept_rows [] d h = refl
is_distinct-kept_rows (row ∷ rows) d h =
    ground (arith, is_distinct-kept_rows rows d, is_in-kept_rows rows d row.key)

is_distinct-new_rows :
    (d : Dict VariantIn) (rows : List Variant)
    → is_distinct (entry_keys d) ≡ true
    → is_distinct (row_keys (new_rows d rows)) ≡ true
unfolding new_rows
is_distinct-new_rows [] rows h = refl
is_distinct-new_rows ((j, v) ∷ d) rows h =
    ground (arith, is_distinct-new_rows d rows, is_in-new_rows d rows j)

is_in-entry_keys :
    (d e : Dict VariantIn) (k : String)
    → is_in k (entry_keys (d ++ e)) ≡ (is_in k (entry_keys d) || is_in k (entry_keys e))
is_in-entry_keys [] e k = refl
is_in-entry_keys ((j, v) ∷ d) e k = ground (arith, is_in-entry_keys d e k)

-- With distinct keys the dict is the list of the variants in their order.
wanted-append :
    (vs : List VariantIn) (d : Dict VariantIn)
    → is_distinct (variant_keys vs) ≡ true
    → ((k : String) → is_in k (variant_keys vs) ≡ true → is_in k (entry_keys d) ≡ false)
    → wanted vs d ≡ d ++ entries vs
unfolding wanted
wanted-append [] d h apart = sym (append-nil d)
wanted-append (v ∷ vs) d h apart =
    let here : is_in v.key (entry_keys d) ≡ false = apart v.key (ground (arith, eq_refl v.key)) in
    let put : Dict.put d v.key v ≡ d ++ ((v.key, v) ∷ []) = put-absent d v.key v here in
    rw put (
      wanted-append vs (d ++ ((v.key, v) ∷ [])) (ground arith) (λ k e.
        ground
          (arith, is_in-entry_keys d ((v.key, v) ∷ []) k, apart k (ground arith), eq_iff v.key k))
      ∙ append_assoc d ((v.key, v) ∷ []) (entries vs))

entry_keys-entries : (vs : List VariantIn) → entry_keys (entries vs) ≡ variant_keys vs
entry_keys-entries [] = refl
entry_keys-entries (v ∷ vs) = ap (λ l. v.key ∷ l) (entry_keys-entries vs)

-- The weight that a dict gives a key.
weight_at : Dict VariantIn → String → ℕ
weight_at d k = elim (Dict.get d k) [ none ↦ 0 | some v ↦ v.weight ]

entry_weights : Dict VariantIn → ℕ
entry_weights [] = 0
entry_weights ((k, v) ∷ d) = v.weight + entry_weights d

entry_weights-entries : (vs : List VariantIn) → entry_weights (entries vs) ≡ total_in vs
unfolding entry_weights
entry_weights-entries [] = refl
entry_weights-entries (v ∷ vs) = ap (λ n. v.weight + n) (entry_weights-entries vs)

row_weights-kept_rows :
    (rows : List Variant) (d : Dict VariantIn)
    → row_weights (kept_rows rows d) ≡ sum_of (λ r. weight_at d r.key) rows
unfolding kept_rows weight_at
row_weights-kept_rows [] d = refl
row_weights-kept_rows (row ∷ rows) d = ground (arith, row_weights-kept_rows rows d)

weight_at-absent :
    (d : Dict VariantIn) (k : String) → is_in k (entry_keys d) ≡ false → weight_at d k ≡ 0
unfolding weight_at
weight_at-absent d k h = elim (Option-cases (Dict.get d k)) [
  | inl e ↦ ground arith
  | inr (v, e) ↦ absurd (ground (arith, is_some-get d k))
]

weight_at-cons :
    (j : String) (v : VariantIn) (d : Dict VariantIn) (k : String)
    → weight_at ((j, v) ∷ d) k ≡ (if j == k then v.weight else weight_at d k)
unfolding weight_at Dict.get
weight_at-cons j v d k = ground arith

-- One more entry adds its weight if a row has its key.
sum_of-cons :
    (rows : List Variant) (j : String) (v : VariantIn) (d : Dict VariantIn)
    → is_distinct (row_keys rows) ≡ true
    → is_in j (entry_keys d) ≡ false
    → sum_of (λ r. weight_at ((j, v) ∷ d) r.key) rows
      ≡ sum_of (λ r. weight_at d r.key) rows + (if is_in j (row_keys rows) then v.weight else 0)
sum_of-cons [] j v d h a = refl
sum_of-cons (row ∷ rows) j v d h a = ground (
  arith,
  sum_of-cons rows j v d,
  weight_at-cons j v d row.key,
  weight_at-absent d j,
  eq_iff j row.key,
  eq_iff row.key j,
)

sum_of-nil : (rows : List Variant) → sum_of (λ r. weight_at [] r.key) rows ≡ 0
unfolding weight_at Dict.get
sum_of-nil [] = refl
sum_of-nil (row ∷ rows) = ground (arith, sum_of-nil rows)

-- The rows that stay and the rows that are new have the weights of the dict.
weights-split :
    (d : Dict VariantIn) (rows : List Variant)
    → is_distinct (row_keys rows) ≡ true
    → is_distinct (entry_keys d) ≡ true
    → sum_of (λ r. weight_at d r.key) rows + row_weights (new_rows d rows) ≡ entry_weights d
unfolding new_rows entry_weights
weights-split [] rows h e = omega (arith, sum_of-nil rows)
weights-split ((j, v) ∷ d) rows h e =
    ground (arith, sum_of-cons rows j v d h, weights-split d rows h)

row_weights-append :
    (xs ys : List Variant) → row_weights (xs ++ ys) ≡ row_weights xs + row_weights ys
row_weights-append [] ys = ground arith
row_weights-append (x ∷ xs) ys = omega (arith, row_weights-append xs ys)

-- With distinct keys on both sides: the keys stay distinct, they are those of the request, and the
-- weights sum to what the request's do.
pub apply_variants_lem :
    (rows : List Variant) (vs : List VariantIn)
    → is_distinct (row_keys rows) ≡ true
    → is_distinct (variant_keys vs) ≡ true
    → (is_distinct (row_keys (apply_variants rows vs)) ≡ true)
      × ((k : String) → is_in k (row_keys (apply_variants rows vs)) ≡ is_in k (variant_keys vs))
      × (row_weights (apply_variants rows vs) ≡ total_in vs)
unfolding apply_variants
apply_variants_lem rows vs h e =
    let d = entries vs in
    let all_of : wanted vs [] ≡ d = wanted-append vs [] e (λ k q. refl) in
    let names : entry_keys d ≡ variant_keys vs = entry_keys-entries vs in
    let distinct : is_distinct (entry_keys d) ≡ true = ap is_distinct names ∙ e in
    let joined : row_keys (kept_rows rows d ++ new_rows d rows)
        ≡ row_keys (kept_rows rows d) ++ row_keys (new_rows d rows) =
      map-append (λ v. v.key) (kept_rows rows d) (new_rows d rows) in
    rw all_of (
      ap is_distinct joined
          ∙ is_distinct-append (row_keys (kept_rows rows d)) (row_keys (new_rows d rows))
              (is_distinct-kept_rows rows d h) (is_distinct-new_rows d rows distinct)
              (λ k q. ground (arith, is_in-kept_rows rows d k, is_in-new_rows d rows k)),
      λ k.
          ap (is_in k) joined
          ∙ is_in-append k (row_keys (kept_rows rows d)) (row_keys (new_rows d rows))
          ∙ ground (arith, is_in-kept_rows rows d k, is_in-new_rows d rows k)
          ∙ ap (is_in k) names,
      row_weights-append (kept_rows rows d) (new_rows d rows)
          ∙ ap (λ n. n + row_weights (new_rows d rows)) (row_weights-kept_rows rows d)
          ∙ weights-split d rows h distinct
          ∙ entry_weights-entries vs,
    )

kept_rows-nil : (rows : List Variant) → kept_rows rows [] ≡ []
unfolding kept_rows Dict.get
kept_rows-nil [] = refl
kept_rows-nil (row ∷ rows) = kept_rows-nil rows

pub apply_variants-nil : (rows : List Variant) → apply_variants rows [] ≡ []
unfolding apply_variants wanted new_rows
apply_variants-nil rows = ap (λ l. l ++ []) (kept_rows-nil rows)
