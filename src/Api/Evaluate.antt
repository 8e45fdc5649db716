-- ===== src/Api/Evaluate.antt =====
-- ripcord/api/evaluate.py: `evaluate_flag`, with the counter of ripcord/metrics.py that it increments.
use ripcord.Prelude.{ℕ, ◌+◌, String, Option, none, some}
use ripcord.Prelude.Dict
use ripcord.Prelude.Dict.{Dict}
use ripcord.Engine.Spec.{Evaluation}
use ripcord.Auth.Verify.{Reply, ok, error}
use ripcord.Cache.Redis.{Redis}
use ripcord.Services.Store.{FlagStore}
use ripcord.Services.Payload.{Codec}
use ripcord.Services.Cached.{Moments, evaluate_flag_cached}
use ripcord.Schemas.Evaluate.{EvaluateRequest, EvaluateResponse, validate_evaluation}

abbrev pub or_zero : Option ℕ → ℕ
or_zero none = 0
or_zero (some n) = n

-- `labels(result=reason).inc()`
unfoldable pub count_evaluation : Dict ℕ → String → Dict ℕ
count_evaluation counts reason = Dict.put counts reason (or_zero (Dict.get counts reason) + 1)

abbrev pub evaluation_response : EvaluateRequest → Evaluation → EvaluateResponse
evaluation_response payload result = record {
  flag_key = payload.flag_key;
  user_id = payload.user_id;
  enabled = result.enabled;
  reason = result.reason;
  variant = result.variant;
  value = result.value;
}

module _ (redis : Redis) (db : FlagStore) (codec : Codec) (md5 : String → String) where
  -- What is done with a result; `none` is an exception.
  abbrev pub answer_evaluation :
      EvaluateRequest → Option Evaluation → Dict ℕ → Reply EvaluateResponse × Dict ℕ
  answer_evaluation payload none counts = (error 500, counts)
  answer_evaluation payload (some result) counts =
      (ok (evaluation_response payload result), count_evaluation counts result.reason)

  -- The route behind its guard: the answer, the counters and the cache that is left.
  unfoldable pub evaluate_route :
      EvaluateRequest
      → Moments redis.State db.State
      → Dict ℕ
      → Reply EvaluateResponse × Dict ℕ × redis.State
  evaluate_route payload m counts = elim (validate_evaluation payload) [
    | some _ ↦ (error 422, counts, m.last)
    | none ↦
        let (result, cache) =
          evaluate_flag_cached redis db codec md5 m payload.flag_key payload.user_id
            (some payload.context) in
        let (reply, counted) = answer_evaluation payload result counts in (reply, counted, cache)
  ]
