-- ===== src/Api/Admission.antt =====
-- ripcord/api/keys.py and ripcord/auth.py: who is answered by a route behind a dependency.
use ripcord.Prelude.{
  ℕ, String, ◌≡◌, refl, ap, true, false, none, some, List, arith, all, Option-cases, inl, inr,
}
use ripcord.Auth.Scopes.{Principal, has}
use ripcord.Auth.Key.{generate_key}
use ripcord.Auth.Store.{ApiKey, KeyStore}
use ripcord.Auth.Verify.{Settings, Clocks, AuthState, Reply, ok, error, create_key, authenticate}
use ripcord.Auth.Guard.{Request, extract_credential, require, admin_dep}
use ripcord.Auth.GuardLaws.{require_decision}
use ripcord.Schemas.Keys.{ApiKeyCreate, validate_key}
use ripcord.Api.Guarded.{continue_as, guarded}
use ripcord.Api.Keys.{create_key_route}

continue_as-ok {ℓ κ} :
    {A : Type ℓ} {S : Type κ} (r : Reply Principal × S) (route : Principal → S → Reply A × S)
    (a : A)
    → (continue_as r route).0 ≡ ok a
    → (p : Principal) × (after : S) × (r ≡ (ok p, after)) × ((route p after).0 ≡ ok a)
continue_as-ok (error code, after) route a h = absurd (cc)
continue_as-ok (ok p, after) route a h = (p, after, refl, h)

module _ (keys : KeyStore) (sha256 : String → String) (settings : Settings) (clocks : Clocks) where
  -- A caller that the dependency lets in: its credential verifies, to a principal that holds every
  -- required scope.
  pub record IsAdmitted (required : List String) (request : Request) (st : AuthState keys.State)
      : Type 0 where
    pub credential : String
    pub presented : extract_credential request false ≡ some credential
    pub principal : Principal
    pub verified : (authenticate keys sha256 settings clocks st credential).0 ≡ some principal
    pub holds : all (λ s. has principal s) required ≡ true

  require-IsAdmitted :
      (required : List String) (request : Request) (st : AuthState keys.State) (p : Principal)
      → settings.auth_enabled ≡ true
      → (require keys sha256 settings clocks required false request st).0 ≡ ok p
      → IsAdmitted required request st
  require-IsAdmitted required request st p on h =
      let d = require_decision keys sha256 settings clocks required false request st on in
      elim (Option-cases (extract_credential request false)) [
        | inl e ↦ absurd (ground arith)
        | inr (c, e) ↦ elim (Option-cases (authenticate keys sha256 settings clocks st c).0) [
          | inl a ↦ absurd (ground arith)
          | inr (q, a) ↦ record {
            credential = c;
            presented = e;
            principal = q;
            verified = a;
            holds = ground arith;
          }
        ]
      ]

  guarded-ok {ℓ} :
      {A : Type ℓ} (required : List String) (request : Request) (st : AuthState keys.State)
      (route : Principal → AuthState keys.State → Reply A × AuthState keys.State) (a : A)
      → (guarded keys sha256 settings clocks required request st route).0 ≡ ok a
      → (p : Principal) × (after : AuthState keys.State) × (require keys sha256 settings clocks
            required false request st
          ≡ (ok p, after))
        × ((route p after).0 ≡ ok a)
  unfolding guarded
  guarded-ok {A} required request st route a h =
      continue_as-ok (require keys sha256 settings clocks required false request st) route a h

  -- The route past its dependency.
  abbrev minted :
      AuthState keys.State
      → ApiKeyCreate
      → String
      → String
      → ℕ
      → Reply (String × ApiKey) × AuthState keys.State
  minted after payload token_hex token_urlsafe now = elim (validate_key payload) [
    | some _ ↦ (error 422, after)
    | none ↦ create_key keys sha256 after payload.name payload.scopes token_hex token_urlsafe now
  ]

  create_key-row :
      (after : AuthState keys.State) (name : String) (scopes : List String)
      (token_hex token_urlsafe : String) (now : ℕ) (full_key : String) (row : ApiKey)
      → (create_key keys sha256 after name scopes token_hex token_urlsafe now).0
        ≡ ok (full_key, row)
      → (row.name ≡ name) × (row.scopes ≡ scopes)
  unfolding create_key generate_key
  create_key-row after name scopes token_hex token_urlsafe now full_key row h =
      elim (Option-cases (
        keys.insert after.rows (record {
          key_id = token_hex;
          secret_hash = sha256 token_urlsafe;
          name = name;
          scopes = scopes;
          created_at = now;
          last_used_at = none;
          revoked_at = none;
        }))) [ inl e ↦ absurd (ground arith) | inr (rows, e) ↦ (ground arith, ground arith) ]

  minted-ok :
      (after : AuthState keys.State) (payload : ApiKeyCreate) (token_hex token_urlsafe : String)
      (now : ℕ) (full_key : String) (row : ApiKey)
      → (minted after payload token_hex token_urlsafe now).0 ≡ ok (full_key, row)
      → (validate_key payload ≡ none) × (row.name ≡ payload.name) × (row.scopes ≡ payload.scopes)
  minted-ok after payload token_hex token_urlsafe now full_key row h =
      elim (Option-cases (validate_key payload)) [
        | inr (i, e) ↦ absurd (ground arith)
        | inl e ↦
            let made =
              create_key-row after payload.name payload.scopes token_hex token_urlsafe now full_key
                row (ground arith) in
            (e, made.0, made.1)
      ]

  -- With auth on, who is answered with a new key was admitted under `admin`, sent a body that its
  -- schema admits, and is told of a key with the name and the scopes of that body.
  pub create_key_route-ok :
      (request : Request) (payload : ApiKeyCreate) (token_hex token_urlsafe : String) (now : ℕ)
      (st : AuthState keys.State) (full_key : String) (row : ApiKey)
      → settings.auth_enabled ≡ true
      → (create_key_route keys sha256 settings clocks request payload token_hex token_urlsafe now
          st).0
        ≡ ok (full_key, row)
      → IsAdmitted admin_dep request st
        × (validate_key payload ≡ none)
        × (row.name ≡ payload.name)
        × (row.scopes ≡ payload.scopes)
  unfolding create_key_route
  create_key_route-ok request payload token_hex token_urlsafe now st full_key row on h =
      let (p, after, admitted, answered) =
        guarded-ok admin_dep request st
          (λ principal after. minted after payload token_hex token_urlsafe now) (full_key, row) h in
      let (valid, named, scoped) =
        minted-ok after payload token_hex token_urlsafe now full_key row answered in
      (require-IsAdmitted admin_dep request st p on (ap (λ r. r.0) admitted), valid, named, scoped)
