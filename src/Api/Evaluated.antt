-- ===== src/Api/Evaluated.antt =====
-- ripcord/api/evaluate.py: the answer of the route beside the evaluation on the table, and its count.
use ripcord.Prelude.{
  ℕ, ◌+◌, String, ◌≡◌, refl, true, none, some, [], map, is_distinct, ◌==◌, Bool-cases, eq_iff, inl,
  inr, if◌then◌else◌,
}
use ripcord.Prelude.Dict
use ripcord.Prelude.Dict.{Dict, get-put}
use ripcord.Models.{Flag}
use ripcord.Auth.Verify.{ok}
use ripcord.Cache.Redis.{Redis}
use ripcord.Cache.Ruleset.{read_flag}
use ripcord.Cache.System.{Answers}
use ripcord.Services.Store.{FlagStore}
use ripcord.Services.Operations.{evaluate_flag}
use ripcord.Services.Payload.{Codec, ruleset_mapping}
use ripcord.Services.Cached.{Moments, evaluate_flag_cached_lem}
use ripcord.Schemas.Evaluate.{EvaluateRequest, validate_evaluation}
use ripcord.Api.Evaluate.{or_zero, count_evaluation, evaluation_response, evaluate_route}

pub get-count :
    (counts : Dict ℕ) (r reason : String)
    → or_zero (Dict.get (count_evaluation counts r) reason) ≡ (
        if r == reason
        then or_zero (Dict.get counts reason) + 1
        else or_zero (Dict.get counts reason))
unfolding count_evaluation
get-count counts r reason = elim (Bool-cases (r == reason)) [
  | inl same ↦
      let id : r ≡ reason = (eq_iff r reason).0 same in
      rw (get-put counts r reason (or_zero (Dict.get counts r) + 1), same, id) refl
  | inr other ↦ rw (get-put counts r reason (or_zero (Dict.get counts r) + 1), other) refl
]

module _ (redis : Redis) (db : FlagStore) (codec : Codec) (md5 : String → String) where
  -- A valid request is answered with the server's evaluation of its flag on the table, if what the
  -- cache serves agrees with that table and the keys of the flag's variants are distinct. The counter
  -- of its reason goes up by one, and no other counter moves.
  pub evaluate_route_lem :
      (payload : EvaluateRequest) (m : Moments redis.State db.State) (counts : Dict ℕ)
      (reason : String)
      → validate_evaluation payload ≡ none
      → ((s : redis.State)
          → m.first ≡ some s
          → Answers
              (read_flag redis s payload.flag_key)
              (Dict.get (ruleset_mapping codec (db.select_all m.table) []) payload.flag_key))
      → ((flag : Flag)
          → db.select_flag m.table payload.flag_key ≡ some flag
          → is_distinct (map (λ v. v.key) flag.variants) ≡ true)
      → ((evaluate_route redis db codec md5 payload m counts).0
          ≡ ok (
              evaluation_response payload (
                evaluate_flag db md5 m.table payload.flag_key payload.user_id
                  (some payload.context))))
        × (or_zero (Dict.get (evaluate_route redis db codec md5 payload m counts).1 reason) ≡ (
            if (evaluate_flag db md5 m.table payload.flag_key payload.user_id
                (some payload.context)).reason
              == reason
            then or_zero (Dict.get counts reason) + 1
            else or_zero (Dict.get counts reason)))
  unfolding evaluate_route
  evaluate_route_lem payload m counts reason valid agrees distinct =
      let right =
        evaluate_flag_cached_lem redis db codec md5 m payload.flag_key payload.user_id
          (some payload.context) agrees distinct in
      rw (evaluate_route, valid, right)
        (
          refl,
          get-count counts
              (evaluate_flag db md5 m.table payload.flag_key payload.user_id
                (some payload.context)).reason
              reason,
        )
