-- ===== src/Tests/Api.antt =====
-- A run of an update through its route, asked for with the bootstrap key.
use ripcord.Prelude.{String, refl, true, false, none, some, []}
use ripcord.Auth.Scopes.{has, effective_scopes, add_implied, implied}
use ripcord.Auth.Key.{split_once, split_three, check_parts, split_key}
use ripcord.Auth.Verify.{Settings, Clocks, is_bootstrap, authenticate}
use ripcord.Auth.Guard.{
  Request, bearer_value, extract_credential, missing_scopes, authorize, require,
}
use ripcord.Models.{Flag}
use ripcord.Schemas.Input.{FlagUpdate}
use ripcord.Services.Flags.{updated, effective_variants, effective_pins, effective_off, bad_off}
use ripcord.Services.Operations.{update, check_update, commit_update}
use ripcord.Api.Flags.{Here, update_as, update_flag}
use ripcord.Api.Answers
use ripcord.Tests.Auth.{keys_table}
use ripcord.Tests.Cache.{memory, nothing}
use ripcord.Tests.Codec.{stack_codec}
use ripcord.Tests.Services.{flags_table}

abbrev digest : String → String
digest s = s

abbrev event : String → String → String
event flag_key action = flag_key

abbrev settings : Settings
settings = record {
  auth_enabled = true;
  auth_cache_seconds = 30;
  bootstrap_admin_key = some "rpc_00_boot";
}

abbrev clocks : Clocks
clocks = record { read = 5; store = 5; utc = 5 }

abbrev request : Request
request = record { authorization = none; x_api_key = some "rpc_00_boot"; query_api_key = none }

abbrev banner : Flag
banner = record {
  key = "banner";
  name = "Banner";
  description = none;
  enabled = true;
  rollout_percentage = 100;
  off_variant = none;
  version = 1;
  rules = [];
  variants = [];
}

abbrev kill : FlagUpdate
kill = record {
  name = none;
  description = none;
  enabled = some false;
  rollout_percentage = none;
  rules = none;
  variants = none;
  off_variant = none;
  off_variant_given = false;
  version = 1;
}

abbrev killed : Flag
killed = record banner { enabled = false; version = 2 }

abbrev world : Here keys_table flags_table memory
world = record {
  auth = record { cache = []; rows = [] };
  tables = (some banner, []);
  cache = nothing;
}

update_flag-IsAnswered_example :
    Answers.IsAnswered keys_table digest settings clocks flags_table stack_codec memory event
      (some banner, [])
      request
      "banner"
      kill
      world
      (update_flag keys_table digest settings clocks flags_table stack_codec memory event
        (some banner, [])
        request
        "banner"
        kill
        world).1
      killed
unfolding update_flag update_as require authorize missing_scopes has effective_scopes add_implied
    implied extract_credential bearer_value authenticate split_key split_three split_once
    check_parts is_bootstrap update check_update commit_update updated effective_variants
    effective_pins effective_off bad_off
update_flag-IsAnswered_example =
    Answers.update_flag-IsAnswered keys_table digest settings clocks flags_table stack_codec memory
      event (some banner, []) request "banner" kill world killed refl
