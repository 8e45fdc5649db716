-- ===== src/Api/Decided.antt =====
-- ripcord/api/evaluate.py, ripcord/services.py and ripcord/cache.py together: the decision of the route in the
-- system of changes and rebuilds, where changes announce their rules in the order of the request.
use ripcord.Prelude.{ℕ, ◌+◌, String, ◌≡◌, ◌==◌, if◌then◌else◌}
use ripcord.Prelude.Dict
use ripcord.Prelude.Dict.{Dict}
use ripcord.Engine.Spec.{Evaluation}
use ripcord.Auth.Verify.{ok}
use ripcord.Cache.Redis.{Redis}
use ripcord.Cache.System.{System}
use ripcord.Services.Store.{FlagStore}
use ripcord.Services.Payload.{Codec}
use ripcord.Services.Cached.{Moments}
use ripcord.Schemas.Evaluate.{EvaluateRequest}
use ripcord.Api.Evaluate.{or_zero, evaluation_response, evaluate_route}

module _ (redis : Redis) (message : String → String → String) (db : FlagStore) (codec : Codec)
    (md5 : String → String) where
  open redis use {hget}
  open db use {select_flag, select_all}

  -- An answer with an evaluation that decides as another one, and the count of that one's reason.
  abbrev pub IsDecided :
      EvaluateRequest → Moments redis.State db.State → Dict ℕ → String → Evaluation → Type 0
  IsDecided payload m counts reason expected =
      ((e : Evaluation) × ((evaluate_route redis db codec md5 payload m counts).0
          ≡ ok (evaluation_response payload e))
        × (e.enabled ≡ expected.enabled)
        × (e.reason ≡ expected.reason))
      × (or_zero (Dict.get (evaluate_route redis db codec md5 payload m counts).1 reason) ≡ (
          if expected.reason == reason
          then or_zero (Dict.get counts reason) + 1
          else or_zero (Dict.get counts reason)))
