-- ===== src/Api/Endpoints.antt =====
-- ripcord/api/evaluate.py, ripcord/api/insights.py, ripcord/api/realtime.py and ripcord/api/flags.py:
-- the reading routes behind their dependencies on scopes. Only the stream takes a credential from the
-- query.
use ripcord.Prelude.{ℕ, String, true, false, Option, none, some, List}
use ripcord.Prelude.Dict.{Dict}
use ripcord.Models.{Flag, AuditLog}
use ripcord.Auth.Store.{KeyStore}
use ripcord.Auth.Verify.{Settings, Clocks, AuthState, Reply, ok, error}
use ripcord.Auth.Guard.{Request, require, sdk_dep, read_dep}
use ripcord.Cache.Redis.{Redis}
use ripcord.Services.Store.{FlagStore}
use ripcord.Services.Payload.{Codec}
use ripcord.Services.Cached.{Moments}
use ripcord.Schemas.Evaluate.{EvaluateRequest, EvaluateResponse, Stats}
use ripcord.Api.Evaluate.{evaluate_route}
use ripcord.Api.Insights.{get_audit, get_stats}
use ripcord.Api.Realtime.{Event, flag_change_events}
use ripcord.Api.Ruleset.{get_ruleset}

module _ (keys : KeyStore) (sha256 : String → String) (settings : Settings) (clocks : Clocks)
    (redis : Redis) (db : FlagStore) (codec : Codec) (md5 : String → String) where
  -- `POST /evaluate`: the answer, and the keys, the counters and the cache that are left.
  unfoldable pub evaluate_endpoint :
      Request
      → EvaluateRequest
      → Moments redis.State db.State
      → AuthState keys.State
      → Dict ℕ
      → Reply EvaluateResponse × AuthState keys.State × Dict ℕ × redis.State
  evaluate_endpoint request payload m st counts =
      let (reply, after) = require keys sha256 settings clocks sdk_dep false request st in
      elim reply [
        | error code ↦ (error code, after, counts, m.last)
        | ok _ ↦
            let (answer, counted, cache) = evaluate_route redis db codec md5 payload m counts in
            (answer, after, counted, cache)
      ]

  -- `GET /ruleset`
  unfoldable pub ruleset_endpoint :
      Request
      → Moments redis.State db.State
      → AuthState keys.State
      → Reply (List String) × AuthState keys.State × redis.State
  ruleset_endpoint request m st =
      let (reply, after) = require keys sha256 settings clocks sdk_dep false request st in
      elim reply [
        | error code ↦ (error code, after, m.last)
        | ok _ ↦ let (answer, cache) = get_ruleset redis db codec m in (answer, after, cache)
      ]

  -- `GET /stream`, for what the subscription brings.
  unfoldable pub stream_endpoint :
      Request
      → List (Option String)
      → AuthState keys.State
      → Reply (List Event) × AuthState keys.State
  stream_endpoint request messages st =
      let (reply, after) = require keys sha256 settings clocks sdk_dep true request st in
      elim reply [
        | error code ↦ (error code, after)
        | ok _ ↦ (ok (flag_change_events messages), after)
      ]

  -- `GET /audit`
  unfoldable pub audit_endpoint :
      Request
      → Option String
      → ℕ
      → db.State
      → AuthState keys.State
      → Reply (List AuditLog) × AuthState keys.State
  audit_endpoint request flag_key limit s st =
      let (reply, after) = require keys sha256 settings clocks read_dep false request st in
      elim reply [
        | error code ↦ (error code, after)
        | ok _ ↦ (get_audit db s flag_key limit, after)
      ]

  -- `GET /stats`
  unfoldable pub stats_endpoint :
      Request → db.State → Dict ℕ → AuthState keys.State → Reply Stats × AuthState keys.State
  stats_endpoint request s counts st =
      let (reply, after) = require keys sha256 settings clocks read_dep false request st in
      elim reply [ error code ↦ (error code, after) | ok _ ↦ (ok (get_stats db s counts), after) ]

  -- `GET /flags`
  unfoldable pub list_flags_endpoint :
      Request → db.State → AuthState keys.State → Reply (List Flag) × AuthState keys.State
  list_flags_endpoint request s st =
      let (reply, after) = require keys sha256 settings clocks read_dep false request st in
      elim reply [ error code ↦ (error code, after) | ok _ ↦ (ok (db.select_all s), after) ]

  -- `GET /flags/{key}`
  unfoldable pub get_flag_endpoint :
      Request → String → db.State → AuthState keys.State → Reply Flag × AuthState keys.State
  get_flag_endpoint request key s st =
      let (reply, after) = require keys sha256 settings clocks read_dep false request st in
      elim reply [
        | error code ↦ (error code, after)
        | ok _ ↦ (elim (db.select_flag s key) [ none ↦ error 404 | some flag ↦ ok flag ], after)
      ]
