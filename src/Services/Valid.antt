-- ===== src/Services/Valid.antt =====
-- ripcord/schemas.py: the row of a request to create a flag that has passed its validators.
use mathlib.Core.Bool.{false≢true}
use ripcord.Prelude.{
  ◌+◌, ◌≤◌, String, ◌≡◌, refl, ap, ◌∙◌, sym, Bool, true, false, ◌&&◌, ◌⊎◌, inl, inr, Option, none,
  some, List, [], ◌∷◌, map, arith, ◌==◌, eq_iff, all, is_empty, is_in, is_distinct, leb, Bool-cases,
  Option-cases,
}
use ripcord.Engine.Variants.{total_weight}
use ripcord.Engine.Sorting.{keys}
use ripcord.Cache.Ruleset.{complete_field}
use ripcord.Schemas.Input.{VariantIn, TargetingRuleIn, FlagCreate}
use ripcord.Schemas.Validate.{
  Invalid, matches_key, variant_keys, check_rule_variants, total_in, validate_variants, or_check,
  check_field, validate_create, valid_rule, valid_variant, has_length, at_most,
}
use ripcord.Models.{Flag}
use ripcord.Services.Flags.{flag_from_input, variants_from_input, rules_from_input, to_spec}

-- Nine checks in a row that find nothing: what four of them found.
checks-none :
    (a b c d e f g h i : Option Invalid)
    → or_check a
        (or_check b (or_check c (or_check d (or_check e (or_check f (or_check g (or_check h i)))))))
      ≡ none
    → (a ≡ none) × (d ≡ none) × (h ≡ none) × (i ≡ none)
checks-none a b c d e f g h i q = ground arith

pub check_field-none : (name : String) (b : Bool) → check_field name b ≡ none → b ≡ true
check_field-none name true h = refl
check_field-none name false h = absurd (cc)

-- A variant that is named is one of the keys.
abbrev pub is_known : List String → Option String → Bool
is_known keys none = true
is_known keys (some v) = is_in v keys

check_rule_variants-none :
    (rules : List TargetingRuleIn) (keys : List String)
    → check_rule_variants rules keys ≡ none
    → all (λ r. is_known keys r.variant) rules ≡ true
unfolding check_rule_variants
check_rule_variants-none [] keys h = refl
check_rule_variants-none (rule ∷ rules) keys h = elim (Option-cases rule.variant) [
  | inl e ↦ ground (arith, check_rule_variants-none rules keys)
  | inr (v, e) ↦ ground (arith, check_rule_variants-none rules keys)
]

pub validate_variants-none :
    (variants : List VariantIn) (off : Option String)
    → validate_variants variants off ≡ none
    → (is_distinct (variant_keys variants) ≡ true)
      × ((is_empty variants ≡ true) ⊎ (total_in variants ≡ 100))
      × (is_known (variant_keys variants) off ≡ true)
unfolding validate_variants
validate_variants-none [] none h = (refl, inl refl, refl)
validate_variants-none [] (some v) h = absurd (cc)
validate_variants-none (v ∷ variants) none h = (ground arith, ground arith, refl)
validate_variants-none (v ∷ variants) (some k) h = (ground arith, ground arith, ground arith)

-- No flag key is the cache's marker.
matches_key-marker : (key : String) → matches_key key ≡ true → (key == complete_field) ≡ false
unfolding matches_key
matches_key-marker key h = elim (Bool-cases (key == complete_field)) [
  | inl same ↦ absurd (false≢true (ap matches_key (sym ((eq_iff key complete_field).0 same)) ∙ h))
  | inr other ↦ other
]

-- A row that the engine serves as its variants intend, under a key that the cache can hold.
pub record IsServable (flag : Flag) : Type 0 where
  pub distinct : is_distinct (map (λ v. v.key) flag.variants) ≡ true
  pub total : (is_empty flag.variants ≡ true) ⊎ (total_weight (to_spec flag).variants ≡ 100)
  pub pins : all (λ r. is_known (map (λ v. v.key) flag.variants) r.variant) flag.rules ≡ true
  pub off : is_known (map (λ v. v.key) flag.variants) flag.off_variant ≡ true
  pub percentage : flag.rollout_percentage ≤ 100
  pub key : (flag.key == complete_field) ≡ false

row_keys : (vs : List VariantIn) → map (λ v. v.key) (variants_from_input vs) ≡ variant_keys vs
unfolding variants_from_input
row_keys [] = refl
row_keys (v ∷ vs) = ap (λ l. v.key ∷ l) (row_keys vs)

row_total :
    (data' : FlagCreate)
    → total_weight (to_spec (flag_from_input data')).variants ≡ total_in data'.variants
unfolding to_spec flag_from_input variants_from_input
row_total data' = go data'.variants
  where
    go :
        (vs : List VariantIn)
        → total_weight (
            map
              (λ v. record { key = v.key; value = v.value; weight = v.weight })
              (variants_from_input vs))
          ≡ total_in vs
    go [] = refl
    go (v ∷ vs) = ap (λ n. v.weight + n) (go vs)

row_empty : (vs : List VariantIn) → is_empty (variants_from_input vs) ≡ is_empty vs
unfolding variants_from_input
row_empty [] = refl
row_empty (v ∷ vs) = refl

row_pins :
    (names : List String) (rules : List TargetingRuleIn)
    → all (λ r. is_known names r.variant) (rules_from_input rules)
      ≡ all (λ r. is_known names r.variant) rules
unfolding rules_from_input
row_pins names [] = refl
row_pins names (r ∷ rules) = ap (λ b. is_known names r.variant && b) (row_pins names rules)

-- The row of a request that passes validation has distinct variant keys, weights that sum to 100 or
-- no variants, pins and an off variant among its variants, a percentage of at most 100, and a key
-- that is not the cache's marker.
pub validate_create-IsServable :
    (data' : FlagCreate) → validate_create data' ≡ none → IsServable (flag_from_input data')
unfolding validate_create flag_from_input
validate_create-IsServable data' h =
    let (key, percentage, coherent, pinned) =
      checks-none (check_field "key" (has_length 128 data'.key && matches_key data'.key))
        (check_field "name" (has_length 256 data'.name))
        (check_field "description" (at_most 1024 data'.description))
        (check_field "rollout_percentage" (leb data'.rollout_percentage 100))
        (check_field "rules" (all valid_rule data'.rules))
        (check_field "variants" (all valid_variant data'.variants))
        (check_field "off_variant" (at_most 64 data'.off_variant))
        (validate_variants data'.variants data'.off_variant)
        (check_rule_variants data'.rules (variant_keys data'.variants)) h in
    let bounded : leb data'.rollout_percentage 100 ≡ true =
      check_field-none "rollout_percentage" (leb data'.rollout_percentage 100) percentage in
    let named : (has_length 128 data'.key && matches_key data'.key) ≡ true =
      check_field-none "key" (has_length 128 data'.key && matches_key data'.key) key in
    let (distinct, total, known) =
      validate_variants-none data'.variants data'.off_variant coherent in
    record {
      distinct = ap is_distinct (row_keys data'.variants) ∙ distinct;
      total = elim total [
        | inl empty ↦ inl (row_empty data'.variants ∙ empty)
        | inr sum ↦ inr (row_total data' ∙ sum)
      ];
      pins =
          ap (λ names. all (λ r. is_known names r.variant) (rules_from_input data'.rules))
            (row_keys data'.variants)
          ∙ row_pins (variant_keys data'.variants) data'.rules
          ∙ check_rule_variants-none data'.rules (variant_keys data'.variants) pinned;
      off = ap (λ names. is_known names data'.off_variant) (row_keys data'.variants) ∙ known;
      percentage = ground arith;
      key = matches_key-marker data'.key (ground arith);
    }
