-- ===== src/Engine/Rollout.antt =====
-- ripcord/engine.py: the percentage rollout, its threshold and its share of the buckets.
use ripcord.Prelude.{
  ℕ, count_below, count_below_interval, ◌*◌, ◌≤◌, ◌<◌, String, ◌≡◌, refl, ap, ◌∙◌, true, Option,
  none, some, List, [], ◌∷◌, arith, ltb,
}
use ripcord.Engine.Spec.{FlagSpec, RuleSpec}
use ripcord.Engine.Bucket.{bucket_for, in_rollout, bucket_count}
use ripcord.Engine.Rules.{Context}
use ripcord.Engine.Variants.{find_variant, choose_variant}
use ripcord.Engine.Evaluate.{
  off_result, on_result, rule_result, first_match, rollout_result, evaluate, context_or_empty,
}

module _ (md5 : String → String) where
  pub bucket_for-lt : (key user salt : String) → bucket_for md5 key user salt < bucket_count
  unfolding bucket_for
  bucket_for-lt key user salt = omega arith

  -- The two early returns agree with the threshold: the test is `bucket < percentage * 100` throughout.
  pub in_rollout-threshold :
      (key user : String) (p : ℕ)
      → in_rollout md5 key user p ≡ ltb (bucket_for md5 key user "") (p * 100)
  unfolding in_rollout
  in_rollout-threshold key user p = ground (arith, bucket_for-lt key user "")

  in_rollout_mono :
      (key user : String) (p q : ℕ)
      → p ≤ q
      → in_rollout md5 key user p ≡ true
      → in_rollout md5 key user q ≡ true
  in_rollout_mono key user p q h e =
      ground (arith, in_rollout-threshold key user p, in_rollout-threshold key user q)

  -- Over users that fall one into each bucket, a rollout of `p` percent admits exactly `p * 100`.
  pub in_rollout_share :
      (key : String) (user_of : ℕ → String) (p : ℕ)
      → ((b : ℕ) → b < bucket_count → bucket_for md5 key (user_of b) "" ≡ b)
      → p ≤ 100
      → count_below bucket_count (λ b. in_rollout md5 key (user_of b) p) ≡ p * 100
  in_rollout_share key user_of p h l =
      count_below_interval bucket_count 0 (p * 100) (λ b. in_rollout md5 key (user_of b) p)
        (λ b m.
          in_rollout-threshold key (user_of b) p ∙ ap (λ t. ltb t (p * 100)) (h b m) ∙ ground arith)
      ∙ omega arith

  module _ (flag : FlagSpec) (user : String) where
    module _ (q : ℕ) where
      abbrev raised : FlagSpec
      raised = record flag { rollout_percentage = q }

      find_raised : (key : Option String) → find_variant raised key ≡ find_variant flag key
      unfolding find_variant
      find_raised none = refl
      find_raised (some k) = refl

      on_result-raised :
          (reason : String) → on_result md5 raised user reason ≡ on_result md5 flag user reason
      unfolding on_result choose_variant
      on_result-raised reason = refl

      rule_result-raised :
          (rule : RuleSpec) → rule_result md5 raised user rule ≡ rule_result md5 flag user rule
      unfolding rule_result
      rule_result-raised rule = cc (find_raised rule.variant, on_result-raised "targeting_match")

      first_match-raised :
          (rules : List RuleSpec) (context : Context)
          → first_match md5 raised user rules context ≡ first_match md5 flag user rules context
      unfolding first_match
      first_match-raised [] context = refl
      first_match-raised (rule ∷ rules) context =
          cc (first_match-raised rules context, rule_result-raised rule)

      -- A user for whom a flag is on keeps the very same evaluation when the percentage is raised.
      pub evaluate_mono :
          (context : Option Context)
          → flag.rollout_percentage ≤ q
          → (evaluate md5 flag user context).enabled ≡ true
          → evaluate md5 raised user context ≡ evaluate md5 flag user context
      unfolding evaluate rollout_result off_result
      evaluate_mono context h e = ground (
        arith,
        first_match-raised flag.rules (context_or_empty context),
        in_rollout_mono flag.key user flag.rollout_percentage q h,
        on_result-raised "rollout_included",
      )
