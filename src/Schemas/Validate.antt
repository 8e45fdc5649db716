-- ===== src/Schemas/Validate.antt =====
-- ripcord/schemas.py: the validators.
use Prim.Native.Char.{code}
use ripcord.Prelude.{
  ℕ, suc, String, Bool, true, false, not, ◌&&◌, ◌||◌, Option, none, some, List, [], ◌∷◌, map, leb,
  ltb, eqb, all, is_empty, is_in, is_distinct, length, sum_of, if◌then◌else◌,
}
use ripcord.Schemas.Input.{VariantIn, TargetingRuleIn, FlagCreate, FlagUpdate}

-- The checks that can fail, with what they report.
pub data Invalid : Type 0 where
  field : String → Invalid
  unknown_rule_variant : String → Invalid
  off_variant_without_variants duplicate_keys too_few_variants : Invalid
  bad_total : ℕ → Invalid
  unknown_off_variant : String → Invalid
  unknown_scope : List String → Invalid
  oversized_entry : String → Invalid

-- The number of characters, as Pydantic counts them.
abbrev pub text_length : String → ℕ
text_length String.[] = 0
text_length (String.◌∷◌ c s) = suc (text_length s)

-- `min_length=1, max_length=n`
abbrev pub has_length : ℕ → String → Bool
has_length n s = leb 1 (text_length s) && leb (text_length s) n

abbrev pub at_most : ℕ → Option String → Bool
at_most n none = true
at_most n (some s) = leb (text_length s) n

-- `[a-z0-9]` and `[a-z0-9._-]`
abbrev pub starts_key : ℕ → Bool
starts_key c = (leb b'a' c && leb c b'z') || (leb b'0' c && leb c b'9')

abbrev pub continues_key : ℕ → Bool
continues_key c = starts_key c || eqb c b'.' || eqb c b'_' || eqb c b'-'

abbrev pub all_continue : String → Bool
all_continue String.[] = true
all_continue (String.◌∷◌ c s) = continues_key (code c) && all_continue s

-- `^[a-z0-9][a-z0-9._-]*$`
unfoldable pub matches_key : String → Bool
matches_key String.[] = false
matches_key (String.◌∷◌ c s) = starts_key (code c) && all_continue s

unfoldable pub valid_variant : VariantIn → Bool
valid_variant v = has_length 64 v.key && (matches_key v.key && leb v.weight 100)

unfoldable pub valid_rule : TargetingRuleIn → Bool
valid_rule r = has_length 128 r.attribute && (not (is_empty r.values) && at_most 64 r.variant)

abbrev pub variant_keys : List VariantIn → List String
variant_keys variants = map (λ v. v.key) variants

-- `_check_rule_variants`
unfoldable pub check_rule_variants : List TargetingRuleIn → List String → Option Invalid
check_rule_variants [] keys = none
check_rule_variants (rule ∷ rules) keys =
    let rest = check_rule_variants rules keys in
    elim rule.variant [
      | none ↦ rest
      | some v ↦ if not (is_in v keys) then some (unknown_rule_variant v) else rest
    ]

-- `off_variant is not None and off_variant not in keys`
abbrev pub check_off : Option String → List String → Option Invalid
check_off none keys = none
check_off (some v) keys = if not (is_in v keys) then some (unknown_off_variant v) else none

abbrev pub total_in : List VariantIn → ℕ
total_in = sum_of (λ v. v.weight)

-- `_validate_variants`
unfoldable pub validate_variants : List VariantIn → Option String → Option Invalid
validate_variants variants off_variant =
    if is_empty variants
    then elim off_variant [ none ↦ none | some _ ↦ some off_variant_without_variants ]
    else if not (is_distinct (variant_keys variants))
    then some duplicate_keys
    else if ltb (length variants) 2
    then some too_few_variants
    else if not (eqb (total_in variants) 100)
    then some (bad_total (total_in variants))
    else check_off off_variant (variant_keys variants)

-- The first error of two checks.
abbrev pub or_check : Option Invalid → Option Invalid → Option Invalid
or_check none later = later
or_check (some e) later = some e

abbrev pub check_field : String → Bool → Option Invalid
check_field name true = none
check_field name false = some (field name)

-- The constraints of the fields, then `_check_variants`.
unfoldable pub validate_create : FlagCreate → Option Invalid
validate_create data' =
    or_check (check_field "key" (has_length 128 data'.key && matches_key data'.key)) (
      or_check (check_field "name" (has_length 256 data'.name)) (
        or_check (check_field "description" (at_most 1024 data'.description)) (
          or_check (check_field "rollout_percentage" (leb data'.rollout_percentage 100)) (
            or_check (check_field "rules" (all valid_rule data'.rules)) (
              or_check (check_field "variants" (all valid_variant data'.variants)) (
                or_check (check_field "off_variant" (at_most 64 data'.off_variant)) (
                  or_check (validate_variants data'.variants data'.off_variant)
                    (check_rule_variants data'.rules (variant_keys data'.variants)))))))))

-- A test on a field that may be absent.
abbrev pub if_given {ℓ} : {A : Type ℓ} → (A → Bool) → Option A → Bool
if_given p none = true
if_given p (some x) = p x

-- `self.rules or []`
abbrev pub or_empty {ℓ} : {A : Type ℓ} → Option (List A) → List A
or_empty none = []
or_empty (some xs) = xs

-- The variant set is validated only when the request replaces it.
unfoldable pub validate_update : FlagUpdate → Option Invalid
validate_update data' = or_check (check_field "name" (if_given (has_length 256) data'.name)) (
    or_check (check_field "description" (at_most 1024 data'.description)) (
      or_check
        (check_field "rollout_percentage" (if_given (λ p. leb p 100) data'.rollout_percentage))
        (or_check (check_field "rules" (if_given (all valid_rule) data'.rules)) (
          or_check (check_field "variants" (if_given (all valid_variant) data'.variants)) (
            or_check (check_field "off_variant" (at_most 64 data'.off_variant)) (
              or_check (check_field "version" (leb 1 data'.version)) (elim data'.variants [
                | none ↦ none
                | some variants ↦
                    or_check (validate_variants variants data'.off_variant)
                      (check_rule_variants (or_empty data'.rules) (variant_keys variants))
              ])))))))
