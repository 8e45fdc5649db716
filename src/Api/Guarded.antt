-- ===== src/Api/Guarded.antt =====
-- ripcord/deps.py: a route behind its dependency on scopes. The dependency runs before a body is
-- validated, so that a route's own answer begins with the check of its body.
use ripcord.Prelude.{String, false, List}
use ripcord.Auth.Scopes.{Principal}
use ripcord.Auth.Store.{KeyStore}
use ripcord.Auth.Verify.{Settings, Clocks, AuthState, Reply, ok, error}
use ripcord.Auth.Guard.{Request, require}

-- What follows the dependency.
abbrev pub continue_as {ℓ κ} :
    {A : Type ℓ} {S : Type κ} → Reply Principal × S → (Principal → S → Reply A × S) → Reply A × S
continue_as (error code, after) route = (error code, after)
continue_as (ok principal, after) route = route principal after

module _ (keys : KeyStore) (sha256 : String → String) (settings : Settings) (clocks : Clocks) where
  -- The answer of a route that demands scopes, and the state of the keys.
  unfoldable pub guarded {ℓ} :
      {A : Type ℓ}
      → List String
      → Request
      → AuthState keys.State
      → (Principal → AuthState keys.State → Reply A × AuthState keys.State)
      → Reply A × AuthState keys.State
  guarded required request st route =
      continue_as (require keys sha256 settings clocks required false request st) route
