-- ===== src/Services/Consistent.antt =====
-- ripcord/services.py and ripcord/schemas.py: what every row of the table of flags satisfies, however
-- requests interleave.
use ripcord.Prelude.{
  ◌+◌, ◌≤◌, String, ◌≡◌, refl, ap, ap₂, ◌∙◌, sym, Bool, true, false, not, ◌&&◌, ◌||◌, ◌⊎◌, inl, inr,
  Option, none, some, List, [], ◌∷◌, map, arith, ◌==◌, all, is_empty, is_in, is_distinct,
  is_in-perm, is_distinct-perm, map-perm, select, Option-cases,
}
use ripcord.Auth.Key.{is_empty_text}
use ripcord.Cache.Ruleset.{complete_field}
use ripcord.Schemas.Input.{FlagCreate}
use ripcord.Schemas.Validate.{validate_create}
use ripcord.Engine.Variants.{total_weight}
use ripcord.Models.{Flag, Variant, TargetingRule, loaded, sort_variants}
use ripcord.Services.Flags.{flag_from_input, to_spec, pins}
use ripcord.Services.Apply.{row_keys, row_weights}
use ripcord.Services.Sorted.{sort_variants_perm, row_weights-perm, all-sort_rules}
use ripcord.Services.Valid.{is_known, validate_create-IsServable}

-- A variant that is named is one of the keys; an empty text names none.
abbrev pub is_pinned : List String → Option String → Bool
is_pinned keys none = true
is_pinned keys (some v) = is_empty_text v || is_in v keys

-- What the engine needs of a row, and the cache of its key.
pub record IsConsistent (flag : Flag) : Type 0 where
  pub distinct : is_distinct (row_keys flag.variants) ≡ true
  pub total : (flag.variants ≡ []) ⊎ (row_weights flag.variants ≡ 100)
  pub pinned : all (λ r. is_pinned (row_keys flag.variants) r.variant) flag.rules ≡ true
  pub off : is_pinned (row_keys flag.variants) flag.off_variant ≡ true
  pub percentage : flag.rollout_percentage ≤ 100
  pub key : (flag.key == complete_field) ≡ false

pub is_pinned-same :
    (xs ys : List String) (o : Option String)
    → ((k : String) → is_in k xs ≡ is_in k ys)
    → is_pinned xs o ≡ is_pinned ys o
is_pinned-same xs ys none h = refl
is_pinned-same xs ys (some v) h = ap (λ b. is_empty_text v || b) (h v)

pub all_pinned-same :
    (xs ys : List String) (rules : List TargetingRule)
    → ((k : String) → is_in k xs ≡ is_in k ys)
    → all (λ r. is_pinned xs r.variant) rules ≡ all (λ r. is_pinned ys r.variant) rules
all_pinned-same xs ys [] h = refl
all_pinned-same xs ys (r ∷ rules) h =
    ap₂ ◌&&◌ (is_pinned-same xs ys r.variant h) (all_pinned-same xs ys rules h)

-- The order in which a query returns rules and variants does not matter.
pub loaded-IsConsistent : (flag : Flag) → IsConsistent flag → IsConsistent (loaded flag)
unfolding loaded sort_variants
loaded-IsConsistent flag c =
    let p = map-perm (λ v. v.key) (sort_variants_perm flag.variants) in
    let same : (k : String)
        → is_in k (row_keys (sort_variants flag.variants)) ≡ is_in k (row_keys flag.variants) =
      λ k. is_in-perm k p in
    record {
      distinct = is_distinct-perm p ∙ c.distinct;
      total = elim c.total [
        | inl none_there ↦ inl (ap sort_variants none_there)
        | inr hundred ↦ inr (row_weights-perm (sort_variants_perm flag.variants) ∙ hundred)
      ];
      pinned =
          all-sort_rules (λ r. is_pinned (row_keys (sort_variants flag.variants)) r.variant)
            flag.rules
          ∙ all_pinned-same (row_keys (sort_variants flag.variants)) (row_keys flag.variants)
              flag.rules same
          ∙ c.pinned;
      off =
          is_pinned-same (row_keys (sort_variants flag.variants)) (row_keys flag.variants)
            flag.off_variant same
          ∙ c.off;
      percentage = c.percentage;
      key = c.key;
    }

is_known-is_pinned :
    (keys : List String) (o : Option String) → is_known keys o ≡ true → is_pinned keys o ≡ true
is_known-is_pinned keys none h = refl
is_known-is_pinned keys (some v) h = ground arith

all_known-all_pinned :
    (keys : List String) (rules : List TargetingRule)
    → all (λ r. is_known keys r.variant) rules ≡ true
    → all (λ r. is_pinned keys r.variant) rules ≡ true
all_known-all_pinned keys [] h = refl
all_known-all_pinned keys (r ∷ rules) h =
    ground (arith, is_known-is_pinned keys r.variant, all_known-all_pinned keys rules)

pub is_empty-nil {ℓ} : {A : Type ℓ} (l : List A) → is_empty l ≡ true → l ≡ []
is_empty-nil [] h = refl
is_empty-nil (x ∷ l) h = absurd (cc)

spec_weights :
    (l : List Variant)
    → total_weight (map (λ v. record { key = v.key; value = v.value; weight = v.weight }) l)
      ≡ row_weights l
spec_weights [] = refl
spec_weights (v ∷ l) = ap (λ n. v.weight + n) (spec_weights l)

servable_total : (flag : Flag) → total_weight (to_spec flag).variants ≡ row_weights flag.variants
unfolding to_spec
servable_total flag = spec_weights flag.variants

-- A row that passed the validators of a creation is consistent.
pub created-IsConsistent :
    (data' : FlagCreate) → validate_create data' ≡ none → IsConsistent (flag_from_input data')
created-IsConsistent data' h =
    let flag = flag_from_input data' in
    let s = validate_create-IsServable data' h in
    record {
      distinct = s.distinct;
      total = elim s.total [
        | inl empty ↦ inl (is_empty-nil flag.variants empty)
        | inr hundred ↦ inr (sym (servable_total flag) ∙ hundred)
      ];
      pinned = all_known-all_pinned (row_keys flag.variants) flag.rules s.pins;
      off = is_known-is_pinned (row_keys flag.variants) flag.off_variant s.off;
      percentage = s.percentage;
      key = s.key;
    }

-- With no unknown pin every rule names a key or nothing.
pub select-pins {ℓ} :
    {R : Type ℓ} (variant : R → Option String) (rs : List R) (keys : List String)
    → is_empty (select (λ v. not (is_in v keys)) (pins variant rs)) ≡ true
    → all (λ r. is_pinned keys (variant r)) rs ≡ true
select-pins variant [] keys h = refl
select-pins variant (r ∷ rs) keys h = elim (Option-cases (variant r)) [
  | inl e ↦ ground (arith, select-pins variant rs keys)
  | inr (v, e) ↦ ground (arith, select-pins variant rs keys)
]
