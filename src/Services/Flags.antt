-- ===== src/Services/Flags.antt =====
-- ripcord/services.py: the conversions between requests, rows and the engine's specifications, and
-- what an update computes before it commits.
use ripcord.Prelude.{
  ℕ, ◌+◌, String, Bool, true, false, not, ◌&&◌, Option, none, some, List, [], ◌∷◌, ◌++◌, map, ◌==◌,
  is_empty, is_in, length, if◌then◌else◌,
}
use ripcord.Prelude.Dict
use ripcord.Prelude.Dict.{Dict}
use ripcord.Json.{Json, null, bool, int, pos, str, arr, items}
use ripcord.Engine.Spec.{FlagSpec}
use ripcord.Models.{TargetingRule, Variant, Flag, AuditLog}
use ripcord.Schemas.Input.{VariantIn, TargetingRuleIn, FlagCreate, FlagUpdate, operator_value}
use ripcord.Schemas.Validate.{variant_keys}
use ripcord.Auth.Key.{is_empty_text}

-- `_rules_from_input`
unfoldable pub rules_from_input : List TargetingRuleIn → List TargetingRule
rules_from_input rules =
    map
      (λ rule. record {
        attribute = rule.attribute;
        operator = operator_value rule.operator;
        values = rule.values;
        priority = rule.priority;
        variant = rule.variant;
      })
      rules

-- `_variants_from_input`
unfoldable pub variants_from_input : List VariantIn → List Variant
variants_from_input variants =
    map (λ v. record { key = v.key; value = v.value; weight = v.weight }) variants

-- `{v.key: v for v in incoming}`: the last of two variants with one key, at the place of the first.
unfoldable pub wanted : List VariantIn → Dict VariantIn → Dict VariantIn
wanted [] d = d
wanted (v ∷ vs) d = wanted vs (Dict.put d v.key v)

-- The rows that stay, with the values that the request gives them.
unfoldable pub kept_rows : List Variant → Dict VariantIn → List Variant
kept_rows [] d = []
kept_rows (row ∷ rows) d =
    let rest = kept_rows rows d in
    elim (Dict.get d row.key) [
      | none ↦ rest
      | some v ↦ record row { value = v.value; weight = v.weight } ∷ rest
    ]

-- The rows that are appended, in the request's order.
unfoldable pub new_rows : Dict VariantIn → List Variant → List Variant
new_rows [] rows = []
new_rows ((k, v) ∷ d) rows =
    let rest = new_rows d rows in
    if is_in k (map (λ r. r.key) rows)
    then rest
    else record { key = k; value = v.value; weight = v.weight } ∷ rest

-- `_apply_variants`. The rows of one flag have distinct keys (`uq_variants_flag_key`), so that
-- `existing` holds them all.
unfoldable pub apply_variants : List Variant → List VariantIn → List Variant
apply_variants rows incoming = let d = wanted incoming [] in kept_rows rows d ++ new_rows d rows

-- `_to_spec`
unfoldable pub to_spec : Flag → FlagSpec
to_spec flag = record {
  key = flag.key;
  enabled = flag.enabled;
  rollout_percentage = flag.rollout_percentage;
  rules =
      map
        (λ r. record {
          attribute = r.attribute;
          operator = r.operator;
          values = r.values;
          variant = r.variant;
        })
        flag.rules;
  variants = map (λ v. record { key = v.key; value = v.value; weight = v.weight }) flag.variants;
  off_variant = flag.off_variant;
}

-- How an operation on a flag ends.
pub data Outcome {ℓ} (A : Type ℓ) : Type ℓ where
  done : A → Outcome A
  duplicate_flag flag_not_found : Outcome A
  version_conflict : ℕ → Option ℕ → Outcome A
  unknown_pins : List String → Outcome A
  unknown_off : String → Outcome A
  constraint_violated : Outcome A

abbrev pub str_list : List String → Json
str_list keys = arr (items (map str keys))

abbrev pub opt_str : Option String → Json
opt_str none = null
opt_str (some s) = str s

abbrev pub nat : ℕ → Json
nat n = int (pos n)

-- The row that `create_flag` adds, as it stays in the session.
unfoldable pub flag_from_input : FlagCreate → Flag
flag_from_input data' = record {
  key = data'.key;
  name = data'.name;
  description = data'.description;
  enabled = data'.enabled;
  rollout_percentage = data'.rollout_percentage;
  off_variant = data'.off_variant;
  version = 1;
  rules = rules_from_input data'.rules;
  variants = variants_from_input data'.variants;
}

unfoldable pub created_entry : FlagCreate → String → AuditLog
created_entry data' actor = record {
  flag_key = data'.key;
  action = "created";
  actor = actor;
  details = some (
      ("enabled", bool data'.enabled)
      ∷ ("rollout_percentage", nat data'.rollout_percentage)
      ∷ (
        "variants",
        if is_empty data'.variants then null else str_list (variant_keys data'.variants),
      )
      ∷ []);
}

-- `x if given is None else given`
abbrev pub given_or {ℓ} : {A : Type ℓ} → Option A → A → A
given_or none x = x
given_or (some y) x = y

-- `{r.variant for r in rules if r.variant}`
abbrev pub pins {ℓ} : {R : Type ℓ} → (R → Option String) → List R → List String
pins variant [] = []
pins variant (r ∷ rs) =
    let rest = pins variant rs in
    elim (variant r) [ none ↦ rest | some v ↦ if is_empty_text v then rest else v ∷ rest ]

-- The three fields that constrain one another, as the update would leave them.
unfoldable pub effective_variants : Flag → FlagUpdate → List String
effective_variants flag data' = elim data'.variants [
  | some variants ↦ variant_keys variants
  | none ↦ map (λ v. v.key) flag.variants
]

unfoldable pub effective_pins : Flag → FlagUpdate → List String
effective_pins flag data' = elim data'.rules [
  | some rules ↦ pins (λ r. r.variant) rules
  | none ↦ pins (λ r. r.variant) flag.rules
]

unfoldable pub effective_off : Flag → FlagUpdate → Option String
effective_off flag data' = if data'.off_variant_given then data'.off_variant else flag.off_variant

-- `effective_off_variant and effective_off_variant not in effective_variants`
unfoldable pub bad_off : Option String → List String → Bool
bad_off none keys = false
bad_off (some v) keys = not (is_empty_text v) && not (is_in v keys)

-- One entry of `changes`, if its field is given.
abbrev pub change {ℓ} : {A : Type ℓ} → String → (A → Json) → Option A → Dict Json
change name print none = []
change name print (some x) = (name, print x) ∷ []

abbrev pub same_option : Option String → Option String → Bool
same_option none none = true
same_option (some a) (some b) = a == b
same_option _ _ = false

unfoldable pub changes : Flag → FlagUpdate → Dict Json
changes flag data' =
    change "name" str data'.name
    ++ (change "description" str data'.description
        ++ (change "enabled" bool data'.enabled
            ++ (change "rollout_percentage" nat data'.rollout_percentage
                ++ (change "rules" (λ rules. nat (length rules)) data'.rules
                    ++ (change "variants" (λ variants. str_list (variant_keys variants))
                          data'.variants
                        ++ (if data'.off_variant_given
                              && not (same_option data'.off_variant flag.off_variant)
                            then ("off_variant", opt_str data'.off_variant) ∷ []
                            else []))))))

-- The row after the assignments, its version bumped.
unfoldable pub updated : Flag → FlagUpdate → Flag
updated flag data' = record flag {
  name = given_or data'.name flag.name;
  description = elim data'.description [ none ↦ flag.description | some d ↦ some d ];
  enabled = given_or data'.enabled flag.enabled;
  rollout_percentage = given_or data'.rollout_percentage flag.rollout_percentage;
  off_variant = effective_off flag data';
  version = flag.version + 1;
  rules = elim data'.rules [ none ↦ flag.rules | some rules ↦ rules_from_input rules ];
  variants = elim data'.variants [
    | none ↦ flag.variants
    | some variants ↦ apply_variants flag.variants variants
  ];
}

unfoldable pub updated_entry : String → Flag → FlagUpdate → String → AuditLog
updated_entry key flag data' actor = record {
  flag_key = key;
  action = "updated";
  actor = actor;
  details = some (changes flag data');
}

unfoldable pub deleted_entry : String → String → AuditLog
deleted_entry key actor = record {
  flag_key = key;
  action = "deleted";
  actor = actor;
  details = none;
}
