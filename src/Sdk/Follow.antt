-- ===== src/Sdk/Follow.antt =====
-- ripcord/sdk/client.py on the stream of ripcord/api/realtime.py, with its ruleset: a client that follows
-- the changes, beside the server's evaluation.
use ripcord.Prelude.{String, ◌≡◌, false, Option, none}
use ripcord.Prelude.Dict.{Dict}
use ripcord.Json.{null}
use ripcord.Engine.Spec.{FlagSpec}
use ripcord.Engine.Rules.{Context}
use ripcord.Cache.Redis.{Redis}
use ripcord.Cache.System.{System}
use ripcord.Services.Store.{FlagStore}
use ripcord.Services.Operations.{evaluate_flag}
use ripcord.Services.Ordered.{Ordered}
use ripcord.Sdk.Client.{is_enabled, variant, value}

-- A copy of the ruleset gives a user the server's evaluation on a table.
abbrev pub Agrees :
    (db : FlagStore)
    → (String → String)
    → Dict FlagSpec
    → db.State
    → String
    → String
    → Option Context
    → Type 0
Agrees db md5 copy t key user context =
    (is_enabled md5 copy key user context false ≡ (evaluate_flag db md5 t key user context).enabled)
    × (variant md5 copy key user context none ≡ (evaluate_flag db md5 t key user context).variant)
    × (value md5 copy key user context null ≡ (evaluate_flag db md5 t key user context).value)
