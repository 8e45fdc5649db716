-- ===== src/Api/Keys.antt =====
-- ripcord/api/keys.py: the three routes behind the `admin` scope.
use ripcord.Prelude.{ℕ, String, none, some, List}
use ripcord.Auth.Store.{ApiKey, KeyStore}
use ripcord.Auth.Verify.{
  Settings, Clocks, AuthState, Reply, ok, error, create_key, list_keys, revoke_key,
}
use ripcord.Auth.Guard.{Request, admin_dep}
use ripcord.Schemas.Keys.{ApiKeyCreate, validate_key}
use ripcord.Api.Guarded.{guarded}

module _ (keys : KeyStore) (sha256 : String → String) (settings : Settings) (clocks : Clocks) where
  -- The tokens that `secrets` gives and the database's time are arguments.
  unfoldable pub create_key_route :
      Request
      → ApiKeyCreate
      → String
      → String
      → ℕ
      → AuthState keys.State
      → Reply (String × ApiKey) × AuthState keys.State
  create_key_route request payload token_hex token_urlsafe now st =
      guarded keys sha256 settings clocks admin_dep request st (λ principal after.
        elim (validate_key payload) [
          | some _ ↦ (error 422, after)
          | none ↦
              create_key keys sha256 after payload.name payload.scopes token_hex token_urlsafe now
        ])

  unfoldable pub list_keys_route :
      Request → AuthState keys.State → Reply (List ApiKey) × AuthState keys.State
  list_keys_route request st =
      guarded keys sha256 settings clocks admin_dep request st
        (λ principal after. (ok (list_keys keys after), after))

  unfoldable pub revoke_key_route :
      Request → String → ℕ → AuthState keys.State → Reply ApiKey × AuthState keys.State
  revoke_key_route request key_id now st =
      guarded keys sha256 settings clocks admin_dep request st
        (λ principal after. revoke_key keys after key_id now)
