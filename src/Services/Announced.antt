-- ===== src/Services/Announced.antt =====
-- ripcord/services.py: `evaluate_flag_cached` on the payload that a change has announced, whose rules are
-- in the order of the request.
use mathlib.Core.Path.{subst}
use ripcord.Prelude.{
  String, ◌≡◌, refl, ap, ◌∙◌, sym, Bool, true, ◌||◌, Option, none, some, List, [], ◌∷◌, map, any,
  arith, is_distinct, Option-cases, inl, inr,
}
use ripcord.Prelude.Dict
use ripcord.Prelude.Dict.{Dict}
use ripcord.Engine.Spec.{FlagSpec, RuleSpec, Evaluation}
use ripcord.Engine.Rules.{Context, rule_matches}
use ripcord.Engine.Evaluate.{evaluate, context_or_empty}
use ripcord.Engine.Decision.{evaluate_decision}
use ripcord.Cache.Redis.{Redis}
use ripcord.Cache.Ruleset.{CachedFlag, hit, absent, cold, read_flag}
use ripcord.Cache.System.{Relation, Accords}
use ripcord.Models.{Flag, TargetingRule, loaded}
use ripcord.Services.Store.{FlagStore}
use ripcord.Services.Operations.{evaluate_flag}
use ripcord.Services.Flags.{to_spec}
use ripcord.Services.Payload.{Codec, flag_payload, ruleset_mapping, spec_from_payload}
use ripcord.Services.Keyed.{map_option}
use ripcord.Services.RoundTrip.{
  rule_spec, stored_spec, spec_from_payload-flag_payload, evaluate-stored_spec,
}
use ripcord.Services.Sorted.{any-sort_rules}
use ripcord.Services.Cached.{
  Moments, evaluate_payload, serve_answer, evaluate_flag_cached, or_cold, get-table,
  serve_answer-table, answer_from-table,
}

-- A change announces the payload of its flag as the session has it, and the table's entry is the
-- payload of the flag as a query loads it.
abbrev pub Announces : Codec → Relation
Announces codec key p q =
    (flag : Flag) × (p ≡ flag_payload codec flag) × (q ≡ flag_payload codec (loaded flag))

-- An evaluation that decides as another one.
abbrev pub Decides : Option Evaluation → Evaluation → Type 0
Decides o expected =
    (e : Evaluation) × (o ≡ some e) × (e.enabled ≡ expected.enabled) × (e.reason ≡ expected.reason)

abbrev or_else : Evaluation → Option Evaluation → Evaluation
or_else e none = e
or_else _ (some e) = e

any-rule_spec :
    (p : RuleSpec → Bool) (rules : List TargetingRule)
    → any p (map rule_spec rules) ≡ any (λ r. p (rule_spec r)) rules
any-rule_spec p [] = refl
any-rule_spec p (r ∷ rules) = ap (λ b. p (rule_spec r) || b) (any-rule_spec p rules)

any-loaded :
    (p : RuleSpec → Bool) (flag : Flag)
    → any p (stored_spec flag).rules ≡ any p (stored_spec (loaded flag)).rules
unfolding loaded to_spec
any-loaded p flag =
    any-rule_spec p flag.rules
    ∙ sym (any-sort_rules (λ r. p (rule_spec r)) flag.rules)
    ∙ sym (any-rule_spec p (loaded flag).rules)

-- The order of the rules does not decide whether a flag is on, or why.
decision-loaded :
    (md5 : String → String) (flag : Flag) (user : String) (context : Option Context)
    → ((evaluate md5 (stored_spec flag) user context).enabled
        ≡ (evaluate md5 (stored_spec (loaded flag)) user context).enabled)
      × ((evaluate md5 (stored_spec flag) user context).reason
          ≡ (evaluate md5 (stored_spec (loaded flag)) user context).reason)
unfolding loaded to_spec
decision-loaded md5 flag user context =
    let (on, why) = evaluate_decision md5 (stored_spec flag) user context in
    let (on', why') = evaluate_decision md5 (stored_spec (loaded flag)) user context in
    let same = any-loaded (λ r. rule_matches r (context_or_empty context)) flag in
    (on ∙ rw same refl ∙ sym on', why ∙ rw same refl ∙ sym why')

exactly : {o : Option Evaluation} {e : Evaluation} → o ≡ some e → Decides o e
exactly {e = e} h = (e, h, refl, refl)

module _ (redis : Redis) (db : FlagStore) (codec : Codec) (md5 : String → String) where
  open db use {select_flag, select_all}

  -- The payload of a flag decides as the row does that holds the flag's loaded payload.
  evaluate_payload-Decides :
      (t : db.State) (key user : String) (context : Option Context) (flag row : Flag)
      → select_flag t key ≡ some row
      → flag_payload codec row ≡ flag_payload codec (loaded flag)
      → is_distinct (map (λ v. v.key) row.variants) ≡ true
      → Decides
          (evaluate_payload redis db codec md5 (flag_payload codec flag) user context)
          (evaluate_flag db md5 t key user context)
  unfolding evaluate_payload evaluate_flag
  evaluate_payload-Decides t key user context flag row found same d =
      let specs : some (stored_spec row) ≡ some (stored_spec (loaded flag)) =
        sym (spec_from_payload-flag_payload codec row)
        ∙ ap (spec_from_payload codec) same
        ∙ spec_from_payload-flag_payload codec (loaded flag) in
      let evaluated =
        λ (o : Option FlagSpec). map_option (λ spec. evaluate md5 spec user context) o in
      let there : some (evaluate md5 (stored_spec (loaded flag)) user context)
          ≡ some (evaluate_flag db md5 t key user context) =
        sym (ap evaluated specs)
        ∙ rw (found, evaluate_flag) (ap some (evaluate-stored_spec md5 row user context d)) in
      let (on, why) = decision-loaded md5 flag user context in
      let got = or_else (evaluate_flag db md5 t key user context) in
      (
        evaluate md5 (stored_spec flag) user context,
        ap evaluated (spec_from_payload-flag_payload codec flag),
        on ∙ ap (λ o. (got o).enabled) there,
        why ∙ ap (λ o. (got o).reason) there,
      )

  serve_answer-Decides :
      (a : CachedFlag) (m : Moments redis.State db.State) (key user : String)
      (context : Option Context)
      → Accords
          (Announces codec)
          key
          a
          (Dict.get (ruleset_mapping codec (select_all m.table) []) key)
      → ((flag : Flag)
          → select_flag m.table key ≡ some flag
          → is_distinct (map (λ v. v.key) flag.variants) ≡ true)
      → Decides
          (serve_answer redis db codec md5 a m key user context).0
          (evaluate_flag db md5 m.table key user context)
  unfolding serve_answer
  serve_answer-Decides (hit payload) m key user context (inr (q, entry, (flag, told, loads)))
        distinct =
      let stored : map_option (flag_payload codec) (select_flag m.table key) ≡ some q =
        sym (get-table redis db codec md5 m.table key) ∙ entry in
      elim (Option-cases (select_flag m.table key)) [
        | inl gone ↦ absurd (ground (arith, ap (map_option (flag_payload codec)) gone))
        | inr (row, found) ↦
            let same : flag_payload codec row ≡ q =
              ground (arith, ap (map_option (flag_payload codec)) found) in
            subst
              (λ p.
                Decides (evaluate_payload redis db codec md5 p user context)
                  (evaluate_flag db md5 m.table key user context))
              (sym told)
              (evaluate_payload-Decides m.table key user context flag row found (same ∙ loads)
                (distinct row found))
      ]
  serve_answer-Decides (hit payload) m key user context (inl entry) distinct = exactly (
      serve_answer-table redis db codec md5 (hit payload) m key user context entry
      ∙ answer_from-table redis db codec md5 m.table key user context distinct)
  serve_answer-Decides absent m key user context entry distinct = exactly (
      serve_answer-table redis db codec md5 absent m key user context entry
      ∙ answer_from-table redis db codec md5 m.table key user context distinct)
  serve_answer-Decides cold m key user context entry distinct = exactly (
      serve_answer-table redis db codec md5 cold m key user context tt
      ∙ answer_from-table redis db codec md5 m.table key user context distinct)

  -- A request whose cache serves the table's entry, or what a change announced for it, gets the
  -- table's decision and its reason.
  pub evaluate_flag_cached-Decides :
      (m : Moments redis.State db.State) (key user : String) (context : Option Context)
      → ((s : redis.State)
          → m.first ≡ some s
          → Accords
              (Announces codec)
              key
              (read_flag redis s key)
              (Dict.get (ruleset_mapping codec (select_all m.table) []) key))
      → ((flag : Flag)
          → select_flag m.table key ≡ some flag
          → is_distinct (map (λ v. v.key) flag.variants) ≡ true)
      → Decides
          (evaluate_flag_cached redis db codec md5 m key user context).0
          (evaluate_flag db md5 m.table key user context)
  unfolding evaluate_flag_cached
  evaluate_flag_cached-Decides m key user context accords distinct =
      let served = λ (o : Option redis.State).
        Decides
          (serve_answer redis db codec md5 (or_cold (map_option (λ s. read_flag redis s key) o)) m
            key user context).0
          (evaluate_flag db md5 m.table key user context) in
      elim (Option-cases m.first) [
        | inl raised ↦
            subst served (sym raised) (serve_answer-Decides cold m key user context tt distinct)
        | inr (s, read) ↦ subst served (sym read) (
            serve_answer-Decides (read_flag redis s key) m key user context (accords s read)
              distinct)
      ]
