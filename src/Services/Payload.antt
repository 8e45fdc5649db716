-- ===== src/Services/Payload.antt =====
-- ripcord/schemas.py, `FlagOut`; ripcord/services.py, `flag_payload`, `build_ruleset_mapping`,
-- `spec_from_payload`; ripcord/sdk/client.py, `_spec_from_json`.
--
-- `model_dump_json` and `json.loads` are a parameter with their round trip. The columns that only the
-- database assigns are printed by parameters too.
use ripcord.Prelude.{ℕ, String, ◌≡◌, Bool, Option, none, some, List, [], ◌∷◌, map}
use ripcord.Prelude.Dict
use ripcord.Prelude.Dict.{Dict}
use ripcord.Json.{
  Json, Items, pos, null, bool, int, str, arr, obj, end, field, items, list_of, get_field,
}
use ripcord.Engine.Spec.{RuleSpec, VariantSpec, FlagSpec}
use ripcord.Models.{TargetingRule, Variant, Flag, sort_variants, loaded}
use ripcord.Services.Flags.{str_list, opt_str, nat}

-- JSON text, and the columns `id`, `created_at`, `updated_at`, which a query loads as they are.
pub record Codec : Type 0 where
  pub dumps : Json → String
  pub loads : String → Option Json
  pub loads-dumps : (j : Json) → loads (dumps j) ≡ some j
  pub flag_id : Flag → Json
  pub created_at : Flag → Json
  pub updated_at : Flag → Json
  pub rule_id : TargetingRule → Json
  pub variant_id : Variant → Json
  pub flag_id-loaded : (flag : Flag) → flag_id (loaded flag) ≡ flag_id flag
  pub created_at-loaded : (flag : Flag) → created_at (loaded flag) ≡ created_at flag
  pub updated_at-loaded : (flag : Flag) → updated_at (loaded flag) ≡ updated_at flag

-- Exceptions of the reader: a missing key, or a value of another type.
infixl 5 ◌>>=◌
abbrev pub ◌>>=◌ {ℓ κ} : {A : Type ℓ} {B : Type κ} → Option A → (A → Option B) → Option B
none >>= f = none
some a >>= f = f a

abbrev pub traverse {ℓ κ} : {A : Type ℓ} {B : Type κ} → (A → Option B) → List A → Option (List B)
traverse f [] = some []
traverse f (x ∷ xs) = let rest = traverse f xs in do y ← f x; ys ← rest; some (y ∷ ys)

abbrev pub as_text : Json → Option String
as_text (str s) = some s
as_text _ = none

-- A text or None.
abbrev pub as_opt_text : Json → Option (Option String)
as_opt_text null = some none
as_opt_text (str s) = some (some s)
as_opt_text _ = none

abbrev pub as_bool : Json → Option Bool
as_bool (bool b) = some b
as_bool _ = none

abbrev pub as_nat : Json → Option ℕ
as_nat (int (pos n)) = some n
as_nat _ = none

abbrev pub as_list : Json → Option (List Json)
as_list (arr xs) = some (list_of xs)
as_list _ = none

-- `data[name]`
abbrev pub at : Json → String → Option Json
at (obj fs) name = get_field name fs
at _ name = none

-- `data.get(name, default)`
abbrev pub at_or : Json → String → Json → Json
at_or j name default = elim (at j name) [ none ↦ default | some v ↦ v ]

unfoldable pub read_rule : Json → Option RuleSpec
read_rule r = do
  attribute ← at r "attribute" >>= as_text
  operator ← at r "operator" >>= as_text
  values ← at r "values" >>= as_list
  texts ← traverse as_text values
  variant ← as_opt_text (at_or r "variant" null)
  some (record { attribute = attribute; operator = operator; values = texts; variant = variant })

unfoldable pub read_variant : Json → Option VariantSpec
read_variant v = do
  key ← at v "key" >>= as_text
  weight ← at v "weight" >>= as_nat
  some (record { key = key; value = at_or v "value" null; weight = weight })

-- The common reader; the two functions differ in what they do without a `rules` field.
unfoldable pub read_spec : Option Json → Json → Option FlagSpec
read_spec rules_field data' = do
  key ← at data' "key" >>= as_text
  enabled ← at data' "enabled" >>= as_bool
  percentage ← at data' "rollout_percentage" >>= as_nat
  off_variant ← as_opt_text (at_or data' "off_variant" null)
  rules ← rules_field >>= as_list
  rule_specs ← traverse read_rule rules
  variants ← as_list (at_or data' "variants" (arr Items.nil))
  variant_specs ← traverse read_variant variants
  some (record {
    key = key;
    enabled = enabled;
    rollout_percentage = percentage;
    rules = rule_specs;
    variants = variant_specs;
    off_variant = off_variant;
  })

-- `_spec_from_json` of the SDK: `data["rules"]`.
unfoldable pub spec_from_json : Json → Option FlagSpec
spec_from_json data' = read_spec (at data' "rules") data'

module _ (codec : Codec) where
  open codec use {dumps, loads, flag_id, created_at, updated_at, rule_id, variant_id}

  unfoldable pub rule_json : TargetingRule → Json
  rule_json r = obj (
      field "id" (rule_id r) (
        field "attribute" (str r.attribute) (
          field "operator" (str r.operator) (
            field "values" (str_list r.values)
              (field "priority" (int r.priority) (field "variant" (opt_str r.variant) end))))))

  unfoldable pub variant_json : Variant → Json
  variant_json v = obj (
      field "id" (variant_id v)
        (field "key" (str v.key) (field "value" v.value (field "weight" (nat v.weight) end))))

  -- `FlagOut`, its variants in key order.
  unfoldable pub flag_json : Flag → Json
  flag_json flag = obj (
      field "id" (flag_id flag) (
        field "key" (str flag.key) (
          field "name" (str flag.name) (
            field "description" (opt_str flag.description) (
              field "enabled" (bool flag.enabled) (
                field "rollout_percentage" (nat flag.rollout_percentage) (
                  field "version" (nat flag.version) (
                    field "created_at" (created_at flag) (
                      field "updated_at" (updated_at flag) (
                        field "off_variant" (opt_str flag.off_variant) (
                          field "rules" (arr (items (map rule_json flag.rules))) (
                            field "variants"
                              (arr (items (map variant_json (sort_variants flag.variants))))
                              end))))))))))))

  unfoldable pub flag_payload : Flag → String
  flag_payload flag = dumps (flag_json flag)

  -- `{flag.key: flag_payload(flag) for flag in flags}`
  unfoldable pub ruleset_mapping : List Flag → Dict String → Dict String
  ruleset_mapping [] d = d
  ruleset_mapping (flag ∷ flags) d = ruleset_mapping flags (Dict.put d flag.key (flag_payload flag))

  -- `data.get("rules", [])`
  unfoldable pub spec_from_payload : String → Option FlagSpec
  spec_from_payload payload = do
    data' ← loads payload
    read_spec (some (at_or data' "rules" (arr Items.nil))) data'
