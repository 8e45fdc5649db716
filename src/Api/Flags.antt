-- ===== src/Api/Flags.antt =====
-- ripcord/api/flags.py: `create_flag`, `update_flag`, `delete_flag`: the guard, the operation, the
-- statuses of its errors and the announcement of its change. A body that fails its schema does not
-- reach a route.
use ripcord.Prelude.{String, Bool, true, false, none, some}
use ripcord.Auth.Scopes.{Principal}
use ripcord.Auth.Store.{KeyStore}
use ripcord.Auth.Verify.{Settings, Clocks, AuthState, Reply, ok, error}
use ripcord.Auth.Guard.{Request, require, write_dep}
use ripcord.Cache.Redis.{Redis}
use ripcord.Cache.Ruleset.{notify_flag_change}
use ripcord.Models.{Flag}
use ripcord.Schemas.Input.{FlagCreate, FlagUpdate}
use ripcord.Services.Store.{FlagStore}
use ripcord.Services.Flags.{
  Outcome, done, duplicate_flag, flag_not_found, version_conflict, unknown_pins, unknown_off,
  constraint_violated,
}
use ripcord.Services.Operations.{create, update, delete}
use ripcord.Services.Payload.{Codec, flag_payload}

-- What a route works on.
pub record World (A D C : Type 0) : Type 0 where
  pub auth : AuthState A
  pub tables : D
  pub cache : C

-- The answer that the routes give for what an operation raises.
abbrev pub status_of {ℓ} : {A : Type ℓ} → Outcome A → (A → Reply A) → Reply A
status_of (done a) f = f a
status_of duplicate_flag f = error 409
status_of flag_not_found f = error 404
status_of (version_conflict _ _) f = error 409
status_of (unknown_pins _) f = error 422
status_of (unknown_off _) f = error 422
status_of constraint_violated f = error 422

abbrev pub Here : KeyStore → FlagStore → Redis → Type 0
Here keys db redis = World keys.State db.State redis.State

module _ (keys : KeyStore) (sha256 : String → String) (settings : Settings) (clocks : Clocks)
    (db : FlagStore) (codec : Codec) (redis : Redis) (message : String → String → String) where
  -- The state after an operation: its change is announced if it succeeded.
  abbrev pub after_change :
      String → String → Outcome Flag → db.State → Here keys db redis → Here keys db redis
  after_change key action (done flag) tables w = record w {
    tables = tables;
    cache =
        (notify_flag_change redis message w.cache key action (some (flag_payload codec flag))).1;
  }
  after_change key action _ tables w = record w { tables = tables }

  abbrev pub guard : Request → Here keys db redis → Reply Principal × AuthState keys.State
  guard request w = require keys sha256 settings clocks write_dep false request w.auth

  -- `update_flag`, at the tables that its first query reads; it commits at those of `w`.
  unfoldable pub update_as :
      db.State
      → String
      → FlagUpdate
      → Principal
      → Here keys db redis
      → Reply Flag × Here keys db redis
  update_as read key payload principal w =
      let (outcome, tables) = update db read w.tables key payload principal.name in
      (status_of outcome ok, after_change key "updated" outcome tables w)

  unfoldable pub update_flag :
      db.State
      → Request
      → String
      → FlagUpdate
      → Here keys db redis
      → Reply Flag × Here keys db redis
  update_flag read request key payload w =
      let (reply, auth) = guard request w in
      elim reply [
        | error code ↦ (error code, record w { auth = auth })
        | ok principal ↦ update_as read key payload principal (record w { auth = auth })
      ]

  unfoldable pub create_as :
      FlagCreate → Principal → Here keys db redis → Reply Flag × Here keys db redis
  create_as payload principal w =
      let (outcome, tables) = create db w.tables payload principal.name in
      (status_of outcome ok, after_change payload.key "created" outcome tables w)

  unfoldable pub create_flag :
      Request → FlagCreate → Here keys db redis → Reply Flag × Here keys db redis
  create_flag request payload w =
      let (reply, auth) = guard request w in
      elim reply [
        | error code ↦ (error code, record w { auth = auth })
        | ok principal ↦ create_as payload principal (record w { auth = auth })
      ]

  -- 404 for a flag that was not there, and no announcement of that.
  abbrev pub after_delete :
      String → Outcome Bool → db.State → Here keys db redis → Reply Bool × Here keys db redis
  after_delete key (done true) tables w = (
    ok true,
    record w {
      tables = tables;
      cache = (notify_flag_change redis message w.cache key "deleted" none).1;
    },
  )
  after_delete key (done false) tables w = (error 404, record w { tables = tables })
  after_delete key (version_conflict _ _) tables w = (error 409, record w { tables = tables })
  after_delete key _ tables w = (error 500, record w { tables = tables })

  unfoldable pub delete_as :
      db.State → String → Principal → Here keys db redis → Reply Bool × Here keys db redis
  delete_as read key principal w =
      let (outcome, tables) = delete db read w.tables key principal.name in
      after_delete key outcome tables w

  unfoldable pub delete_flag :
      db.State → Request → String → Here keys db redis → Reply Bool × Here keys db redis
  delete_flag read request key w =
      let (reply, auth) = guard request w in
      elim reply [
        | error code ↦ (error code, record w { auth = auth })
        | ok principal ↦ delete_as read key principal (record w { auth = auth })
      ]
