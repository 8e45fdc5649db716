-- ===== src/Engine/Reorder.antt =====
-- ripcord/engine.py: `evaluate`, and the order in which variants are stored.
use mathlib.Core.List.{Permᴰ}
use ripcord.Prelude.{
  String, ◌≡◌, refl, ap, ◌∙◌, sym, true, Option, none, some, List, [], ◌∷◌, arith, is_empty,
  is_distinct,
}
use ripcord.Engine.Spec.{VariantSpec, FlagSpec, RuleSpec}
use ripcord.Engine.Rules.{Context}
use ripcord.Engine.Variants.{find_key, find_variant, insert_by_key, sort_by_key, choose_variant}
use ripcord.Engine.Evaluate.{
  off_result, on_result, rule_result, first_match, rollout_result, evaluate, context_or_empty,
}
use ripcord.Engine.Sorting.{keys, sort-perm, find-sort}

is_empty-sort : (l : List VariantSpec) → is_empty (sort_by_key l) ≡ is_empty l
unfolding sort_by_key
is_empty-sort [] = refl
is_empty-sort (v ∷ l) = is_empty-insert v (sort_by_key l)
  where
    is_empty-insert :
        (w : VariantSpec) (m : List VariantSpec) → is_empty (insert_by_key w m) ≡ is_empty (v ∷ l)
    is_empty-insert w [] = refl
    is_empty-insert w (x ∷ m) = ground arith

module _ (md5 : String → String) (flag : FlagSpec) (variants : List VariantSpec)
    (same : sort_by_key variants ≡ sort_by_key flag.variants) where
  abbrev with_variants : FlagSpec
  with_variants = record flag { variants = variants }

  find_same : (key : Option String) → find_variant with_variants key ≡ find_variant flag key
  unfolding find_variant
  find_same none = refl
  find_same (some k) =
      sym (find-sort variants k) ∙ ap (λ l. find_key l k) same ∙ find-sort flag.variants k

  empty_same : is_empty variants ≡ is_empty flag.variants
  empty_same = sym (is_empty-sort variants) ∙ ap is_empty same ∙ is_empty-sort flag.variants

  choose_same :
      (user : String) → choose_variant md5 with_variants user ≡ choose_variant md5 flag user
  unfolding choose_variant
  choose_same user = rw (empty_same, same)

  on_result_same :
      (user reason : String)
      → on_result md5 with_variants user reason ≡ on_result md5 flag user reason
  unfolding on_result
  on_result_same user reason = rw (empty_same, choose_same)

  rule_result_same :
      (user : String) (rule : RuleSpec)
      → rule_result md5 with_variants user rule ≡ rule_result md5 flag user rule
  unfolding rule_result
  rule_result_same user rule = cc (find_same rule.variant, on_result_same user "targeting_match")

  first_match_same :
      (user : String) (rules : List RuleSpec) (context : Context)
      → first_match md5 with_variants user rules context ≡ first_match md5 flag user rules context
  unfolding first_match
  first_match_same user [] context = refl
  first_match_same user (rule ∷ rules) context =
      rw (first_match_same user rules context, rule_result_same user rule)

  pub evaluate_same :
      (user : String) (context : Option Context)
      → evaluate md5 with_variants user context ≡ evaluate md5 flag user context
  unfolding evaluate rollout_result off_result
  evaluate_same user context = cc (
    find_same flag.off_variant,
    first_match_same user flag.rules (context_or_empty context),
    on_result_same user "rollout_included",
  )

-- The order in which a flag's variants are stored changes no evaluation, if their keys are distinct.
pub evaluate-perm :
    (md5 : String → String) (flag : FlagSpec) (variants : List VariantSpec) (user : String)
    (context : Option Context)
    → Permᴰ variants flag.variants
    → is_distinct (keys variants) ≡ true
    → evaluate md5 (record flag { variants = variants }) user context
      ≡ evaluate md5 flag user context
evaluate-perm md5 flag variants user context p d =
    evaluate_same md5 flag variants (sort-perm p d) user context
