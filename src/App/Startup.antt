-- ===== src/App/Startup.antt =====
-- ripcord/main.py: `create_app`, up to its check of the bootstrap key. The framework calls after it
-- mount the routers and middleware.
use ripcord.Prelude.{String, Bool, not, ◌&&◌, Option, none, some, is_some, if◌then◌else◌}
use ripcord.Auth.Key.{split_key}
use ripcord.Auth.Guard.{given}
use ripcord.Auth.Verify.{Settings}

-- How a start ends: with an application, told whether the warning on open access was logged, or
-- with RuntimeError.
pub data Started : Type 0 where
  running : Bool → Started
  malformed_bootstrap_key : Started

-- `if settings.bootstrap_admin_key` and the key does not split.
unfoldable pub is_malformed : Option String → Bool
is_malformed none = Bool.false
is_malformed (some key) = given (some key) && not (is_some (split_key key))

unfoldable pub create_app : Settings → Started
unfolding is_malformed
create_app settings =
    if is_malformed settings.bootstrap_admin_key
    then malformed_bootstrap_key
    else running (not settings.auth_enabled)
