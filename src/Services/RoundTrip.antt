-- ===== src/Services/RoundTrip.antt =====
-- ripcord/services.py: `flag_payload` and `spec_from_payload`; ripcord/sdk/client.py:
-- `_spec_from_json`.
use mathlib.Core.List.{Permᴰ}
use ripcord.Prelude.{
  String, ◌≡◌, refl, ap, ◌∙◌, true, Option, none, some, List, [], ◌∷◌, map, arith, is_distinct,
  is_distinct-perm, map-perm,
}
use ripcord.Json.{Json, str, items, list_of, get_field}
use ripcord.Engine.Spec.{RuleSpec, VariantSpec, FlagSpec}
use ripcord.Engine.Rules.{Context}
use ripcord.Engine.Evaluate.{evaluate}
use ripcord.Engine.Variants.{insert_by_key, sort_by_key}
use ripcord.Engine.Sorting.{keys, sort_perm}
use ripcord.Engine.Reorder.{evaluate-perm}
use ripcord.Models.{TargetingRule, Variant, Flag, sort_variants, insert_variant}
use ripcord.Services.Flags.{opt_str, to_spec}
use ripcord.Services.Payload.{
  Codec, traverse, as_text, as_opt_text, read_rule, read_variant, read_spec, spec_from_json,
  rule_json, variant_json, flag_json, flag_payload, spec_from_payload,
}

abbrev pub rule_spec : TargetingRule → RuleSpec
rule_spec r = record {
  attribute = r.attribute;
  operator = r.operator;
  values = r.values;
  variant = r.variant;
}

abbrev variant_spec : Variant → VariantSpec
variant_spec v = record { key = v.key; value = v.value; weight = v.weight }

list_of-items : (l : List Json) → list_of (items l) ≡ l
list_of-items [] = refl
list_of-items (x ∷ l) = ap (λ m. x ∷ m) (list_of-items l)

traverse-map {ℓ κ μ} :
    {A : Type ℓ} {B : Type κ} {C : Type μ} (f : B → Option C) (g : A → B) (h : A → C)
    → ((a : A) → f (g a) ≡ some (h a))
    → (l : List A) → traverse f (map g l) ≡ some (map h l)
traverse-map f g h e [] = refl
traverse-map f g h e (x ∷ l) = rw (e x, traverse-map f g h e l) refl

traverse-str : (l : List String) → traverse as_text (list_of (items (map str l))) ≡ some l
traverse-str [] = refl
traverse-str (x ∷ l) = rw (traverse-str l) refl

map-insert_variant :
    (v : Variant) (l : List Variant)
    → map variant_spec (insert_variant v l) ≡ insert_by_key (variant_spec v) (map variant_spec l)
unfolding insert_variant insert_by_key
map-insert_variant v [] = refl
map-insert_variant v (w ∷ l) = ground (arith, map-insert_variant v l)

map-sort_variants :
    (l : List Variant) → map variant_spec (sort_variants l) ≡ sort_by_key (map variant_spec l)
unfolding sort_variants sort_by_key
map-sort_variants [] = refl
map-sort_variants (v ∷ l) =
    map-insert_variant v (sort_variants l)
    ∙ ap (insert_by_key (variant_spec v)) (map-sort_variants l)

keys-map : (l : List Variant) → keys (map variant_spec l) ≡ map (λ v. v.key) l
keys-map [] = refl
keys-map (v ∷ l) = ap (λ m. v.key ∷ m) (keys-map l)

as_opt_text-opt_str : (o : Option String) → as_opt_text (opt_str o) ≡ some o
as_opt_text-opt_str none = refl
as_opt_text-opt_str (some s) = refl

-- The specification of the row with its variants in key order.
abbrev pub stored_spec : Flag → FlagSpec
stored_spec flag = to_spec (record flag { variants = sort_variants flag.variants })

module _ (codec : Codec) where
  open codec use {loads-dumps}

  read_rule-rule_json : (r : TargetingRule) → read_rule (rule_json codec r) ≡ some (rule_spec r)
  unfolding read_rule rule_json get_field
  read_rule-rule_json r = rw (traverse-str r.values, as_opt_text-opt_str r.variant) refl

  read_variant-variant_json :
      (v : Variant) → read_variant (variant_json codec v) ≡ some (variant_spec v)
  unfolding read_variant variant_json get_field
  read_variant-variant_json v = refl

  -- The SDK's reader, on an entry that the server prints, gives the specification of the row with its
  -- variants in key order.
  pub spec_from_json-flag_json :
      (flag : Flag) → spec_from_json (flag_json codec flag) ≡ some (stored_spec flag)
  unfolding spec_from_json read_spec flag_json get_field to_spec
  spec_from_json-flag_json flag =
      rw
        (
          as_opt_text-opt_str flag.off_variant,
          list_of-items (map (rule_json codec) flag.rules),
          traverse-map read_rule (rule_json codec) rule_spec read_rule-rule_json flag.rules,
          list_of-items (map (variant_json codec) (sort_variants flag.variants)),
          traverse-map read_variant (variant_json codec) variant_spec read_variant-variant_json
              (sort_variants flag.variants),
        )
        refl

  -- The payload of a flag reads back, without an error, as the specification of the row with its
  -- variants in key order.
  pub spec_from_payload-flag_payload :
      (flag : Flag) → spec_from_payload codec (flag_payload codec flag) ≡ some (stored_spec flag)
  unfolding spec_from_payload flag_payload flag_json spec_from_json get_field
  spec_from_payload-flag_payload flag =
      rw (loads-dumps (flag_json codec flag)) (spec_from_json-flag_json flag)

-- An evaluation does not see the order in which a flag's variants are stored.
pub evaluate-stored_spec :
    (md5 : String → String) (flag : Flag) (user : String) (context : Option Context)
    → is_distinct (map (λ v. v.key) flag.variants) ≡ true
    → evaluate md5 (stored_spec flag) user context ≡ evaluate md5 (to_spec flag) user context
unfolding to_spec
evaluate-stored_spec md5 flag user context d =
    let p : Permᴰ (map variant_spec (sort_variants flag.variants))
        (map variant_spec flag.variants) =
      rw (map-sort_variants flag.variants) (sort_perm (map variant_spec flag.variants)) in
    evaluate-perm md5 (to_spec flag) (map variant_spec (sort_variants flag.variants)) user context p
      (is_distinct-perm (map-perm (λ v. v.key) p) ∙ ap is_distinct (keys-map flag.variants) ∙ d)
