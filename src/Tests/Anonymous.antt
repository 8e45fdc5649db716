-- ===== src/Tests/Anonymous.antt =====
-- A run of the routes on a request that carries no credential.
use ripcord.Prelude.{◌≡◌, refl, none, some, [], ◌∷◌}
use ripcord.Auth.Verify.{error}
use ripcord.Auth.Guard.{Request, bearer_value, extract_credential}
use ripcord.Schemas.Keys.{ApiKeyCreate}
use ripcord.Schemas.Evaluate.{EvaluateRequest}
use ripcord.Api.Flags.{Here, create_flag, update_flag, delete_flag}
use ripcord.Api.Keys.{create_key_route, list_keys_route, revoke_key_route}
use ripcord.Api.Endpoints.{
  evaluate_endpoint, ruleset_endpoint, stream_endpoint, audit_endpoint, stats_endpoint,
  list_flags_endpoint, get_flag_endpoint,
}
use ripcord.Api.Anonymous
use ripcord.Tests.Auth.{keys_table, digest, settings, clocks, fresh}
use ripcord.Tests.Cache.{memory, nothing}
use ripcord.Tests.Codec.{stack_codec}
use ripcord.Tests.Services.{flags_table, banner, kill, none_yet}
use ripcord.Tests.Sdk.{unreadable}
use ripcord.Tests.Current.{event}

abbrev request : Request
request = record { authorization = some "Basic x"; x_api_key = some ""; query_api_key = none }

abbrev world : Here keys_table flags_table memory
world = record { auth = fresh; tables = none_yet; cache = nothing }

abbrev wanted : ApiKeyCreate
wanted = record { name = "ci"; scopes = "admin" ∷ [] }

abbrev asked : EvaluateRequest
asked = record { flag_key = "banner"; user_id = "u1"; context = [] }

routes_unauthorized_example :
    (create_flag keys_table digest settings
        (clocks 5)
        flags_table
        stack_codec
        memory
        event
        request
        banner
        world
      ≡ (error 401, world))
    × (update_flag keys_table digest settings
          (clocks 5)
          flags_table
          stack_codec
          memory
          event
          none_yet
          request
          "banner"
          kill
          world
        ≡ (error 401, world))
    × (delete_flag keys_table digest settings
          (clocks 5)
          flags_table
          stack_codec
          memory
          event
          none_yet
          request
          "banner"
          world
        ≡ (error 401, world))
    × (create_key_route keys_table digest settings (clocks 5) request wanted "ab12" "t0k" 7 fresh
        ≡ (error 401, fresh))
    × (list_keys_route keys_table digest settings (clocks 5) request fresh ≡ (error 401, fresh))
    × (revoke_key_route keys_table digest settings (clocks 5) request "banner" 7 fresh
        ≡ (error 401, fresh))
    × (evaluate_endpoint keys_table digest settings
          (clocks 5)
          memory
          flags_table
          stack_codec
          digest
          request
          asked
          unreadable
          fresh
          []
        ≡ (error 401, fresh, [], nothing))
    × (ruleset_endpoint keys_table digest settings
          (clocks 5)
          memory
          flags_table
          stack_codec
          digest
          request
          unreadable
          fresh
        ≡ (error 401, fresh, nothing))
    × (stream_endpoint keys_table digest settings
          (clocks 5)
          memory
          flags_table
          stack_codec
          digest
          request
          []
          fresh
        ≡ (error 401, fresh))
    × (audit_endpoint keys_table digest settings
          (clocks 5)
          memory
          flags_table
          stack_codec
          digest
          request
          none
          100
          none_yet
          fresh
        ≡ (error 401, fresh))
    × (stats_endpoint keys_table digest settings
          (clocks 5)
          memory
          flags_table
          stack_codec
          digest
          request
          none_yet
          []
          fresh
        ≡ (error 401, fresh))
    × (list_flags_endpoint keys_table digest settings
          (clocks 5)
          memory
          flags_table
          stack_codec
          digest
          request
          none_yet
          fresh
        ≡ (error 401, fresh))
    × (get_flag_endpoint keys_table digest settings
          (clocks 5)
          memory
          flags_table
          stack_codec
          digest
          request
          "banner"
          none_yet
          fresh
        ≡ (error 401, fresh))
unfolding extract_credential bearer_value
routes_unauthorized_example =
    Anonymous.routes_unauthorized keys_table digest settings (clocks 5) memory flags_table
      stack_codec digest event request world none_yet "banner" banner kill wanted "ab12" "t0k" 7
      asked unreadable [] [] none 100 refl refl
