-- ===== src/Tests/Keys.antt =====
-- Runs of the bootstrap key, of a minted key and of the command line.
use ripcord.Prelude.{◌≡◌, refl, true, false, none, some, List, [], ◌∷◌, is_some, ◌⊎◌}
use ripcord.Auth.Key.{split_once, split_three, check_parts, split_key, format_key, generate_key}
use ripcord.Auth.Store.{ApiKey}
use ripcord.Auth.Verify.{AuthState, ok, is_bootstrap, authenticate, bootstrap_principal, create_key}
use ripcord.Auth.Guard.{require, strip, strip_left, strip_right, is_space, write_dep}
use ripcord.Auth.Mirror.{here}
use ripcord.Auth.Accept
use ripcord.Schemas.Keys.{unknown_scopes}
use ripcord.App.Startup.{create_app, is_malformed}
use ripcord.App.Commands.{exits, main_create_key, create_key_command, split_commas, strip_all}
use ripcord.App.Accepted
use ripcord.App.Accepted.{printed}
use ripcord.Prelude.{all, is_in}
use ripcord.Auth.Scopes.{all_scopes}
use ripcord.App.Bootstrap
use ripcord.Sdk.Lifecycle.{RipcordClient, headers_of, new_client, close}
use ripcord.Sdk.Credential
use ripcord.Sdk.Credential.{request_of}
use ripcord.Auth.Guard.{extract_credential}
use ripcord.App.Bootstrap.{with_key}
use ripcord.Tests.Auth.{keys_table, digest, settings, clocks, fresh, insert_row, select_row}

create_app_bootstrap_example :
    require keys_table digest settings (clocks 5) write_dep false (with_key "rpc_00_boot") fresh
    ≡ (ok bootstrap_principal, fresh)
unfolding create_app is_malformed split_key split_three split_once check_parts
create_app_bootstrap_example =
    Bootstrap.create_app_bootstrap keys_table digest settings (clocks 5) false false "rpc_00_boot"
      write_dep fresh refl refl refl refl refl

abbrev minted : ApiKey
minted = record {
  key_id = "cd34";
  secret_hash = "t0k";
  name = "ci";
  scopes = "sdk" ∷ [];
  created_at = 7;
  last_used_at = none;
  revoked_at = none;
}

abbrev after : AuthState (List ApiKey)
after = (create_key keys_table digest fresh "ci" ("sdk" ∷ []) "cd34" "t0k" 7).1

create_key_accepted_example :
    (row : ApiKey) × (keys_table.select_key after.rows "cd34" ≡ some row)
    × ((is_some row.revoked_at ≡ true)
        ⊎ ((authenticate keys_table digest settings (clocks 20) after "rpc_cd34_t0k").0
            ≡ some (record { name = "ci"; scopes = "sdk" ∷ []; key_id = some "cd34" })))
unfolding create_key generate_key format_key insert_row select_row is_bootstrap
create_key_accepted_example =
    Accept.create_key_accepted keys_table digest settings (clocks 20) fresh.rows fresh after "ci"
      ("sdk" ∷ []) "cd34" "t0k" 7 "rpc_cd34_t0k" minted here refl refl refl refl here refl

-- A list of scopes that is all blanks mints a key that may do nothing.
no_scopes :
    (main_create_key keys_table digest
      (record { cache = []; rows = [] })
      "ci"
      " , "
      "cd34"
      "t0k"
      7).0
    ≡ exits 0 (some "rpc_cd34_t0k")
unfolding main_create_key create_key_command split_commas strip_all strip strip_left strip_right
    is_space unknown_scopes create_key generate_key format_key insert_row select_row
no_scopes = refl

abbrev sdk : RipcordClient
sdk = record {
  http = record {
    base_url = some "http://flags";
    headers = ("Authorization", "Bearer rpc_ab12_s3_cret") ∷ [];
    closed = false;
  };
  owns_http = true;
  flags = [];
  watching = false;
  stopped = false;
}

extract_credential-new_client_example :
    extract_credential (request_of sdk) false ≡ some "rpc_ab12_s3_cret"
unfolding new_client headers_of is_space
extract_credential-new_client_example =
    Credential.extract_credential-new_client (some "http://flags") "rpc_ab12_s3_cret" none sdk false
      refl refl refl

closed_client : (close sdk).http.closed ≡ true
unfolding close
closed_client = refl

-- The server of `fresh`, after the command has run beside it.
abbrev beside : AuthState (List ApiKey)
beside = record {
  cache = fresh.cache;
  rows = (printed keys_table digest fresh.rows "ci" " sdk, flags:read" "cd34" "t0k" 7).rows;
}

main_create_key_accepted_example :
    (all (λ s. is_in s all_scopes) (strip_all (split_commas " sdk, flags:read")) ≡ true)
    × ((row : ApiKey) × (keys_table.select_key beside.rows "cd34" ≡ some row)
        × ((is_some row.revoked_at ≡ true)
            ⊎ ((authenticate keys_table digest settings (clocks 20) beside "rpc_cd34_t0k").0
                ≡ some (record {
                  name = "ci";
                  scopes = strip_all (split_commas " sdk, flags:read");
                  key_id = some "cd34";
                }))))
unfolding main_create_key create_key_command split_commas strip_all strip strip_left strip_right
    is_space unknown_scopes create_key generate_key format_key insert_row select_row is_bootstrap
main_create_key_accepted_example =
    Accepted.main_create_key_accepted keys_table digest settings (clocks 20) fresh.rows fresh beside
      "ci" " sdk, flags:read" "cd34" "t0k" 7 "rpc_cd34_t0k" here refl refl refl refl here refl
