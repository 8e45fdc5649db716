-- ===== src/Engine/Evaluate.antt =====
-- ripcord/engine.py: `_off_result` and `evaluate`.
use ripcord.Prelude.{
  String, Bool, true, false, not, Option, none, some, List, [], ◌∷◌, if◌then◌else◌,
}
use ripcord.Json.{null}
use ripcord.Engine.Spec.{RuleSpec, VariantSpec, FlagSpec, Evaluation, is_multivariate}
use ripcord.Engine.Bucket.{in_rollout}
use ripcord.Engine.Rules.{Context, rule_matches}
use ripcord.Engine.Variants.{find_variant, choose_variant}

-- An evaluation that serves a variant, or none: `chosen.key if chosen else None`.
unfoldable pub serve : Bool → String → Option VariantSpec → Evaluation
serve enabled reason none = record {
  enabled = enabled;
  reason = reason;
  variant = none;
  value = null;
}
serve enabled reason (some v) = record {
  enabled = enabled;
  reason = reason;
  variant = some v.key;
  value = v.value;
}

unfoldable pub off_result : FlagSpec → String → Evaluation
unfolding serve
off_result flag reason = serve false reason (find_variant flag flag.off_variant)

-- `context or {}`
abbrev pub context_or_empty : Option Context → Context
context_or_empty none = []
context_or_empty (some c) = c

module _ (md5 : String → String) (flag : FlagSpec) (user_id : String) where
  -- The served variant of a multivariate flag, and a bare "on" otherwise.
  unfoldable pub on_result : String → Evaluation
  unfolding serve
  on_result reason =
      if is_multivariate flag
      then serve true reason (choose_variant md5 flag user_id)
      else serve true reason none

  -- A matching rule serves the variant that it pins, if the flag still has it.
  unfoldable pub rule_result : RuleSpec → Evaluation
  rule_result rule = elim (find_variant flag rule.variant) [
    | some pinned ↦ serve true "targeting_match" (some pinned)
    | none ↦ on_result "targeting_match"
  ]

  -- The loop over the rules: the first that matches decides.
  unfoldable pub first_match : List RuleSpec → Context → Option Evaluation
  first_match [] context = none
  first_match (rule ∷ rules) context =
      let rest = first_match rules context in
      if not (rule_matches rule context) then rest else some (rule_result rule)

  -- What is left once no rule has matched.
  unfoldable pub rollout_result : Evaluation
  rollout_result =
      if in_rollout md5 flag.key user_id flag.rollout_percentage
      then on_result "rollout_included"
      else off_result flag "rollout_excluded"

  unfoldable pub evaluate : Option Context → Evaluation
  evaluate context =
      if not flag.enabled
      then off_result flag "flag_disabled"
      else elim (first_match flag.rules (context_or_empty context)) [
        | some result ↦ result
        | none ↦ rollout_result
      ]
