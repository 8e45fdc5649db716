-- ===== src/Engine/Decision.antt =====
-- ripcord/engine.py: `evaluate`, its outcome and its reason.
use ripcord.Prelude.{
  ◌*◌, String, ◌≡◌, refl, Bool, true, false, not, ◌&&◌, ◌||◌, Option, some, List, [], ◌∷◌, arith,
  ltb, any, is_some, Option-cases, inl, inr, if◌then◌else◌,
}
use ripcord.Engine.Spec.{FlagSpec, RuleSpec, Evaluation}
use ripcord.Engine.Bucket.{bucket_for}
use ripcord.Engine.Rules.{Context, rule_matches}
use ripcord.Engine.Evaluate.{
  off_result, on_result, rule_result, first_match, rollout_result, evaluate, serve,
  context_or_empty,
}
use ripcord.Engine.Rollout.{in_rollout-threshold}

module _ (md5 : String → String) (flag : FlagSpec) (user : String) where
  abbrev any_match : List RuleSpec → Context → Bool
  any_match rules context = any (λ r. rule_matches r context) rules

  on_result_decision :
      (reason : String)
      → ((on_result md5 flag user reason).enabled ≡ true)
        × ((on_result md5 flag user reason).reason ≡ reason)
  unfolding on_result
  on_result_decision reason = ground arith

  off_result_decision :
      (reason : String)
      → ((off_result flag reason).enabled ≡ false) × ((off_result flag reason).reason ≡ reason)
  unfolding off_result
  off_result_decision reason = ground arith

  rule_result_decision :
      (rule : RuleSpec)
      → ((rule_result md5 flag user rule).enabled ≡ true)
        × ((rule_result md5 flag user rule).reason ≡ "targeting_match")
  unfolding rule_result serve
  rule_result_decision rule = ground (arith, on_result_decision "targeting_match")

  first_match-none :
      (rules : List RuleSpec) (context : Context)
      → is_some (first_match md5 flag user rules context) ≡ any_match rules context
  unfolding first_match
  first_match-none [] context = refl
  first_match-none (rule ∷ rules) context = ground (arith, first_match-none rules context)

  first_match-some :
      (rules : List RuleSpec) (context : Context) (e : Evaluation)
      → first_match md5 flag user rules context ≡ some e
      → (e.enabled ≡ true) × (e.reason ≡ "targeting_match")
  unfolding first_match
  first_match-some [] context e h = absurd (cc)
  first_match-some (rule ∷ rules) context e h =
      ground (arith, first_match-some rules context e, rule_result_decision rule)

  -- An evaluation is "on" exactly when the switch is on and a rule matches or the user's bucket lies
  -- below the percentage's threshold, and its reason names the first of these that decided.
  pub evaluate_decision :
      (context : Option Context)
      → ((evaluate md5 flag user context).enabled ≡ (
          flag.enabled
          && (any (λ r. rule_matches r (context_or_empty context)) flag.rules
              || ltb (bucket_for md5 flag.key user "") (flag.rollout_percentage * 100))))
        × ((evaluate md5 flag user context).reason ≡ (
            if not flag.enabled
            then "flag_disabled"
            else if any (λ r. rule_matches r (context_or_empty context)) flag.rules
            then "targeting_match"
            else if ltb (bucket_for md5 flag.key user "") (flag.rollout_percentage * 100)
            then "rollout_included"
            else "rollout_excluded"))
  unfolding evaluate rollout_result
  evaluate_decision context =
      let c = context_or_empty context in
      elim (Option-cases (first_match md5 flag user flag.rules c)) [
        | inl no_match ↦ rw no_match (
            ground (
              arith,
              first_match-none flag.rules c,
              in_rollout-threshold md5 flag.key user flag.rollout_percentage,
              on_result_decision "rollout_included",
              off_result_decision "rollout_excluded",
              off_result_decision "flag_disabled",
            ))
        | inr (e, match) ↦ rw match (
            ground (
              arith,
              first_match-none flag.rules c,
              first_match-some flag.rules c e match,
              off_result_decision "flag_disabled",
            ))
      ]
