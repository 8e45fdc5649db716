-- ===== src/Tests/Routes.antt =====
-- Runs of the routes of keys, of the audit log and of evaluation.
use ripcord.Prelude.{String, ◌≡◌, refl, true, none, some, [], ◌∷◌}
use ripcord.Prelude.Dict
use ripcord.Auth.Scopes.{has, effective_scopes, add_implied, implied}
use ripcord.Auth.Key.{split_once, split_three, check_parts, split_key, format_key, generate_key}
use ripcord.Auth.Store.{ApiKey}
use ripcord.Auth.Verify.{Settings, Clocks, is_bootstrap, authenticate, create_key}
use ripcord.Auth.Guard.{
  Request, bearer_value, extract_credential, missing_scopes, authorize, require, admin_dep,
}
use ripcord.Models.{AuditLog}
use ripcord.Schemas.Keys.{ApiKeyCreate, unknown_scopes, known_scopes, validate_key}
use ripcord.Schemas.Evaluate.{EvaluateRequest}
use ripcord.Api.Guarded.{guarded}
use ripcord.Api.Keys.{create_key_route}
use ripcord.Api.Admission
use ripcord.Api.Current
use ripcord.Tests.Auth.{keys_table, insert_row, select_row}

abbrev digest : String → String
digest s = s

abbrev settings : Settings
settings = record {
  auth_enabled = true;
  auth_cache_seconds = 30;
  bootstrap_admin_key = some "rpc_00_boot";
}

abbrev clocks : Clocks
clocks = record { read = 5; store = 5; utc = 5 }

abbrev request : Request
request = record { authorization = none; x_api_key = some "rpc_00_boot"; query_api_key = none }

abbrev wanted : ApiKeyCreate
wanted = record { name = "ci"; scopes = "sdk" ∷ [] }

abbrev minted : ApiKey
minted = record {
  key_id = "ab12";
  secret_hash = "s3_cret";
  name = "ci";
  scopes = "sdk" ∷ [];
  created_at = 7;
  last_used_at = none;
  revoked_at = none;
}

create_key_route-ok_example :
    Admission.IsAdmitted keys_table digest settings clocks admin_dep request
      (record { cache = []; rows = [] })
    × (validate_key wanted ≡ none)
    × (minted.name ≡ wanted.name)
    × (minted.scopes ≡ wanted.scopes)
unfolding create_key_route guarded require authorize missing_scopes has effective_scopes add_implied
    implied extract_credential bearer_value authenticate split_key split_three split_once
    check_parts is_bootstrap validate_key known_scopes unknown_scopes create_key generate_key
    format_key insert_row select_row
create_key_route-ok_example =
    Admission.create_key_route-ok keys_table digest settings clocks request wanted "ab12" "s3_cret"
      7 (record { cache = []; rows = [] }) "rpc_ab12_s3_cret" minted refl refl

abbrev entry : String → AuditLog
entry key = record { flag_key = key; action = "deleted"; actor = "bob"; details = none }

abbrev asked : EvaluateRequest
asked = record { flag_key = "theme"; user_id = "u1"; context = ("plan", "pro") ∷ [] }
