-- ===== src/Auth/GuardLaws.antt =====
-- ripcord/auth.py: the answers of the dependency that `require` builds.
use ripcord.Prelude.{
  String, ◌≡◌, refl, Bool, true, false, not, none, some, List, [], ◌∷◌, arith, all, is_in, is_empty,
  sym, ap, ◌∙◌, Bool-cases, eq_iff, inl, inr, Option-cases, if◌then◌else◌,
}
use ripcord.Auth.Scopes.{Principal, anonymous, has, has_lem, scope_admin}
use ripcord.Auth.Store.{KeyStore}
use ripcord.Auth.Verify.{Settings, Clocks, AuthState, ok, error, authenticate}
use ripcord.Auth.Guard.{Request, given, extract_credential, missing_scopes, authorize, require}

pub missing-nil :
    (p : Principal) (required : List String)
    → is_empty (missing_scopes p required) ≡ all (λ s. has p s) required
unfolding missing_scopes
missing-nil p [] = refl
missing-nil p (s ∷ required) = ground (arith, missing-nil p required)

module _ (db : KeyStore) (sha256 : String → String) (settings : Settings) (clocks : Clocks) where
  open db use {State}

  -- With auth on, the answer of the guard is decided by the credential: none, or one that does not
  -- verify, is 401; one that verifies but lacks a required scope is 403; else its principal goes on.
  pub require_decision :
      (required : List String) (allow_query : Bool) (request : Request) (st : AuthState State)
      → settings.auth_enabled ≡ true
      → (require db sha256 settings clocks required allow_query request st).0
        ≡ elim (extract_credential request allow_query) [
          | none ↦ error 401
          | some credential ↦
              if not (given (some credential))
              then error 401
              else elim (authenticate db sha256 settings clocks st credential).0 [
                | none ↦ error 401
                | some p ↦ if all (λ s. has p s) required then ok p else error 403
              ]
        ]
  unfolding require authorize
  require_decision required allow_query request st on =
      elim (Option-cases (extract_credential request allow_query)) [
        | inl e ↦ ground arith
        | inr (c, e) ↦ elim (Option-cases (authenticate db sha256 settings clocks st c).0) [
          | inl a ↦ ground arith
          | inr (p, a) ↦ ground (arith, missing-nil p required)
        ]
      ]

  -- The principal whom the guard lets in has every scope that it requires, if the anonymous one does.
  pub require-grants :
      (required : List String) (allow_query : Bool) (request : Request) (st : AuthState State)
      (p : Principal)
      → all (λ s. has anonymous s) required ≡ true
      → (require db sha256 settings clocks required allow_query request st).0 ≡ ok p
      → all (λ s. has p s) required ≡ true
  unfolding require
  require-grants required allow_query request st p open_door h =
      elim (Bool-cases settings.auth_enabled) [
        | inr off ↦
            let same : anonymous ≡ p = ground arith in
            ap (λ q. all (λ s. has q s) required) (sym same) ∙ open_door
        | inl on ↦
            let decided = sym (require_decision required allow_query request st on) ∙ h in
            elim (Option-cases (extract_credential request allow_query)) [
              | inl e ↦ absurd (ground arith)
              | inr (c, e) ↦ elim (Option-cases (authenticate db sha256 settings clocks st c).0) [
                | inl a ↦ absurd (ground arith)
                | inr (q, a) ↦ ground arith
              ]
            ]
      ]

  -- With auth on it is the principal to whom the request's credential verifies.
  pub require-identified :
      (required : List String) (allow_query : Bool) (request : Request) (st : AuthState State)
      (p : Principal)
      → settings.auth_enabled ≡ true
      → (require db sha256 settings clocks required allow_query request st).0 ≡ ok p
      → (credential : String) × (extract_credential request allow_query ≡ some credential)
        × ((authenticate db sha256 settings clocks st credential).0 ≡ some p)
  require-identified required allow_query request st p on h =
      let decided = sym (require_decision required allow_query request st on) ∙ h in
      elim (Option-cases (extract_credential request allow_query)) [
        | inl e ↦ absurd (ground arith)
        | inr (c, e) ↦ elim (Option-cases (authenticate db sha256 settings clocks st c).0) [
          | inl a ↦ absurd (ground arith)
          | inr (q, a) ↦ (c, e, ground arith)
        ]
      ]

  all-false :
      (p : Principal) (scope : String) (required : List String)
      → is_in scope required ≡ true
      → has p scope ≡ false
      → all (λ s. has p s) required ≡ false
  all-false p scope [] h lacks = absurd (cc)
  all-false p scope (s ∷ required) h lacks =
      ground (arith, eq_iff s scope, all-false p scope required)

  -- A verified key that was granted neither a required scope nor `admin` gets 403 from the route:
  -- a key with the `sdk` scope alone cannot write a flag.
  pub require_forbidden :
      (required : List String) (allow_query : Bool) (request : Request) (st : AuthState State)
      (credential scope : String) (p : Principal)
      → settings.auth_enabled ≡ true
      → extract_credential request allow_query ≡ some credential
      → given (some credential) ≡ true
      → (authenticate db sha256 settings clocks st credential).0 ≡ some p
      → is_in scope required ≡ true
      → is_in scope p.scopes ≡ false
      → is_in scope_admin p.scopes ≡ false
      → (require db sha256 settings clocks required allow_query request st).0 ≡ error 403
  require_forbidden required allow_query request st credential scope p on e there a needed lacks
        not_admin =
      ground (
        arith,
        require_decision required allow_query request st on,
        all-false p scope required needed (ground (arith, has_lem p scope)),
      )
