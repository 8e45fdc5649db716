-- ===== src/Services/Updated.antt =====
-- ripcord/services.py, `update_flag`: the rows that a valid update leaves.
use ripcord.Prelude.{
  String, ◌≡◌, refl, ap, ◌∙◌, true, false, not, ◌&&◌, ◌⊎◌, inl, inr, Option, none, some, List, [],
  ◌∷◌, map, arith, all, is_empty, is_in, is_distinct, leb, select, Option-cases,
}
use ripcord.Schemas.Input.{VariantIn, TargetingRuleIn, FlagUpdate}
use ripcord.Schemas.Validate.{
  Invalid, variant_keys, check_rule_variants, validate_variants, or_check, check_field,
  validate_update, if_given, or_empty, valid_rule, valid_variant, has_length, at_most,
}
use ripcord.Models.{Flag, Variant, TargetingRule}
use ripcord.Services.Flags.{
  rules_from_input, updated, pins, effective_variants, effective_pins, effective_off, bad_off,
  apply_variants,
}
use ripcord.Services.Apply.{row_keys, row_weights, apply_variants_lem, apply_variants-nil}
use ripcord.Services.Valid.{check_field-none, validate_variants-none}
use ripcord.Services.Consistent.{
  is_pinned, IsConsistent, is_pinned-same, all_pinned-same, is_empty-nil, select-pins,
}

input_pins :
    (keys : List String) (rules : List TargetingRuleIn)
    → all (λ r. is_pinned keys r.variant) (rules_from_input rules)
      ≡ all (λ r. is_pinned keys r.variant) rules
unfolding rules_from_input
input_pins keys [] = refl
input_pins keys (r ∷ rules) = ap (λ b. is_pinned keys r.variant && b) (input_pins keys rules)

bad_off-is_pinned :
    (keys : List String) (o : Option String) → bad_off o keys ≡ false → is_pinned keys o ≡ true
unfolding bad_off
bad_off-is_pinned keys none h = refl
bad_off-is_pinned keys (some v) h = ground arith

rules_pinned :
    (flag : Flag) (given : Option (List TargetingRuleIn)) (keys : List String)
    → is_empty (
        select
          (λ v. not (is_in v keys))
          (elim given [
            | some rules ↦ pins (λ r. r.variant) rules
            | none ↦ pins (λ r. r.variant) flag.rules
          ]))
      ≡ true
    → all
        (λ r. is_pinned keys r.variant)
        (elim given [ none ↦ flag.rules | some rules ↦ rules_from_input rules ])
      ≡ true
rules_pinned flag none keys h = select-pins (λ (r : TargetingRule). r.variant) flag.rules keys h
rules_pinned flag (some rules) keys h =
    input_pins keys rules ∙ select-pins (λ (r : TargetingRuleIn). r.variant) rules keys h

-- The variants that an update leaves, with those of the row or those of the request.
record IsReplaced (flag : Flag) (given : Option (List VariantIn)) (after : List Variant)
    : Type 0 where
  distinct : is_distinct (row_keys after) ≡ true
  total : (after ≡ []) ⊎ (row_weights after ≡ 100)
  same :
      (k : String)
      → is_in k (row_keys after)
        ≡ is_in k (elim given [
          | some variants ↦ variant_keys variants
          | none ↦ map (λ v. v.key) flag.variants
        ])

variants-IsReplaced :
    (flag : Flag) (given : Option (List VariantIn)) (off : Option String)
    → IsConsistent flag
    → elim given [ none ↦ none | some variants ↦ validate_variants variants off ] ≡ none
    → IsReplaced flag given (elim given [
      | none ↦ flag.variants
      | some variants ↦ apply_variants flag.variants variants
    ])
variants-IsReplaced flag none off c h = record {
  distinct = c.distinct;
  total = c.total;
  same = λ k. refl;
}
variants-IsReplaced flag (some variants) off c h =
    let (distinct, total, _) = validate_variants-none variants off h in
    let (d, s, w) = apply_variants_lem flag.variants variants c.distinct distinct in
    record {
      distinct = d;
      total = elim total [
        | inl empty ↦ inl (
            ap (apply_variants flag.variants) (is_empty-nil variants empty)
            ∙ apply_variants-nil flag.variants)
        | inr hundred ↦ inr (w ∙ hundred)
      ];
      same = s;
    }

-- Eight checks in a row that find nothing: what two of them found.
checks-none :
    (a b c d e f g h : Option Invalid)
    → or_check a (or_check b (or_check c (or_check d (or_check e (or_check f (or_check g h))))))
      ≡ none
    → (c ≡ none) × (h ≡ none)
checks-none a b c d e f g h q = ground arith

first-none :
    (given : Option (List VariantIn)) (off : Option String) (rules : List TargetingRuleIn)
    → elim given [
      | none ↦ none
      | some variants ↦
          or_check
            (validate_variants variants off)
            (check_rule_variants rules (variant_keys variants))
    ]
      ≡ none
    → elim given [ none ↦ none | some variants ↦ validate_variants variants off ] ≡ none
first-none none off rules h = refl
first-none (some variants) off rules h = ground arith

-- What a valid update says of its percentage and its variants.
validate_update-none :
    (data' : FlagUpdate)
    → validate_update data' ≡ none
    → (if_given (λ p. leb p 100) data'.rollout_percentage ≡ true)
      × (elim data'.variants [
        | none ↦ none
        | some variants ↦ validate_variants variants data'.off_variant
      ]
          ≡ none)
unfolding validate_update
validate_update-none data' h =
    let (percentage, variants) =
      checks-none (check_field "name" (if_given (has_length 256) data'.name))
        (check_field "description" (at_most 1024 data'.description))
        (check_field "rollout_percentage" (if_given (λ p. leb p 100) data'.rollout_percentage))
        (check_field "rules" (if_given (all valid_rule) data'.rules))
        (check_field "variants" (if_given (all valid_variant) data'.variants))
        (check_field "off_variant" (at_most 64 data'.off_variant))
        (check_field "version" (leb 1 data'.version))
        (elim data'.variants [
          | none ↦ none
          | some variants ↦
              or_check (validate_variants variants data'.off_variant)
                (check_rule_variants (or_empty data'.rules) (variant_keys variants))
        ])
        h in
    (
      check_field-none "rollout_percentage" (if_given (λ p. leb p 100) data'.rollout_percentage)
          percentage,
      first-none data'.variants data'.off_variant (or_empty data'.rules) variants,
    )

-- A consistent row stays consistent under a valid update that passes the service's own checks.
pub updated-IsConsistent :
    (flag : Flag) (data' : FlagUpdate)
    → IsConsistent flag
    → validate_update data' ≡ none
    → is_empty
        (select (λ v. not (is_in v (effective_variants flag data'))) (effective_pins flag data'))
      ≡ true
    → bad_off (effective_off flag data') (effective_variants flag data') ≡ false
    → IsConsistent (updated flag data')
unfolding updated effective_variants effective_pins
updated-IsConsistent flag data' c valid known good =
    let (percentage, variants) = validate_update-none data' valid in
    let r = variants-IsReplaced flag data'.variants data'.off_variant c variants in
    record {
      distinct = r.distinct;
      total = r.total;
      pinned =
          all_pinned-same _ _ (updated flag data').rules r.same
          ∙ rules_pinned flag data'.rules (effective_variants flag data') known;
      off =
          is_pinned-same _ _ (effective_off flag data') r.same
          ∙ bad_off-is_pinned (effective_variants flag data') (effective_off flag data') good;
      percentage = elim (Option-cases data'.rollout_percentage) [
        | inl e ↦ ground (arith, c.percentage)
        | inr (p, e) ↦ ground (arith, c.percentage)
      ];
      key = c.key;
    }
