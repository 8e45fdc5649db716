-- ===== src/App/Bootstrap.antt =====
-- ripcord/main.py and ripcord/auth.py: the bootstrap key of a server that has started.
use ripcord.Prelude.{
  String, ◌≡◌, refl, Bool, true, false, none, some, List, [], ◌∷◌, arith, all, is_in, is_some,
  eq_refl, Option-cases, inl, inr,
}
use ripcord.Auth.Scopes.{all_scopes, has, has_lem}
use ripcord.Auth.Key.{split_key, is_empty_text}
use ripcord.Auth.Store.{KeyStore}
use ripcord.Auth.Verify.{
  Settings, Clocks, AuthState, ok, authenticate, is_bootstrap, bootstrap_principal,
}
use ripcord.Auth.Guard.{Request, extract_credential, bearer_value, authorize, require}
use ripcord.Auth.GuardLaws.{missing-nil}
use ripcord.App.Startup.{running, create_app, is_malformed}

-- The administrator holds every scope that there is.
has-bootstrap :
    (required : List String)
    → all (λ s. is_in s all_scopes) required ≡ true
    → all (λ s. has bootstrap_principal s) required ≡ true
has-bootstrap [] h = refl
has-bootstrap (s ∷ required) h =
    ground (arith, has_lem bootstrap_principal s, has-bootstrap required)

-- A server that has started has a bootstrap key that splits.
started-splits :
    (settings : Settings) (warned : Bool) (bootstrap : String)
    → create_app settings ≡ running warned
    → settings.bootstrap_admin_key ≡ some bootstrap
    → is_empty_text bootstrap ≡ false
    → is_some (split_key bootstrap) ≡ true
unfolding create_app is_malformed
started-splits settings warned bootstrap started set there =
    elim (Option-cases (split_key bootstrap)) [ inl e ↦ ground arith | inr (parts, e) ↦ rw e refl ]

authenticate-bootstrap :
    (db : KeyStore) (sha256 : String → String) (settings : Settings) (clocks : Clocks)
    (bootstrap : String) (st : AuthState (db.State))
    → settings.bootstrap_admin_key ≡ some bootstrap
    → is_empty_text bootstrap ≡ false
    → is_some (split_key bootstrap) ≡ true
    → authenticate db sha256 settings clocks st bootstrap ≡ (some bootstrap_principal, st)
unfolding authenticate is_bootstrap
authenticate-bootstrap db sha256 settings clocks bootstrap st set there splits =
    elim (Option-cases (split_key bootstrap)) [
      | inl e ↦ absurd (cc)
      | inr ((key_id, secret), e) ↦ ground (arith, eq_refl bootstrap)
    ]

-- The request that carries a key in its own header.
abbrev pub with_key : String → Request
with_key key = record { authorization = none; x_api_key = some key; query_api_key = none }

extract_credential-with_key :
    (key : String) (allow_query : Bool)
    → is_empty_text key ≡ false
    → extract_credential (with_key key) allow_query ≡ some key
unfolding extract_credential bearer_value
extract_credential-with_key key allow_query there = ground arith

module _ (db : KeyStore) (sha256 : String → String) (settings : Settings) (clocks : Clocks) where
  open db use {State}

  -- A server that has started with auth on and a bootstrap key lets a request with that key in its
  -- own header through the dependency on any known scopes, in every state of the table and the
  -- cache of keys, under the principal of the bootstrap key and with no change of that state.
  pub create_app_bootstrap :
      (warned allow_query : Bool) (bootstrap : String) (required : List String)
      (st : AuthState State)
      → create_app settings ≡ running warned
      → settings.auth_enabled ≡ true
      → settings.bootstrap_admin_key ≡ some bootstrap
      → is_empty_text bootstrap ≡ false
      → all (λ s. is_in s all_scopes) required ≡ true
      → require db sha256 settings clocks required allow_query (with_key bootstrap) st
        ≡ (ok bootstrap_principal, st)
  unfolding require authorize
  create_app_bootstrap warned allow_query bootstrap required st started on set there known =
      let auth =
        authenticate-bootstrap db sha256 settings clocks bootstrap st set there
          (started-splits settings warned bootstrap started set there) in
      ground (
        arith,
        extract_credential-with_key bootstrap allow_query there,
        missing-nil bootstrap_principal required,
        has-bootstrap required known,
      )
