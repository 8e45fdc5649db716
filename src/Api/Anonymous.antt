-- ===== src/Api/Anonymous.antt =====
-- ripcord/api: the routes, on a request that carries no credential.
use ripcord.Prelude.{
  ℕ, String, ◌≡◌, refl, ap, Bool, true, false, Option, none, List, arith, Option-cases, inl, inr,
}
use ripcord.Prelude.Dict.{Dict}
use ripcord.Auth.Store.{KeyStore}
use ripcord.Auth.Verify.{Settings, Clocks, AuthState, error}
use ripcord.Auth.Guard.{
  Request, bearer_value, extract_credential, require, read_dep, write_dep, sdk_dep, admin_dep,
}
use ripcord.Cache.Redis.{Redis}
use ripcord.Schemas.Input.{FlagCreate, FlagUpdate}
use ripcord.Schemas.Keys.{ApiKeyCreate}
use ripcord.Schemas.Evaluate.{EvaluateRequest}
use ripcord.Services.Store.{FlagStore}
use ripcord.Services.Payload.{Codec}
use ripcord.Services.Cached.{Moments}
use ripcord.Api.Flags.{Here, create_flag, update_flag, delete_flag}
use ripcord.Api.Guarded.{guarded}
use ripcord.Api.Keys.{create_key_route, list_keys_route, revoke_key_route}
use ripcord.Api.Endpoints.{
  evaluate_endpoint, ruleset_endpoint, stream_endpoint, audit_endpoint, stats_endpoint,
  list_flags_endpoint, get_flag_endpoint,
}

extract_credential-none :
    (request : Request)
    → extract_credential request true ≡ none
    → extract_credential request false ≡ none
unfolding extract_credential
extract_credential-none request h = elim (Option-cases (bearer_value request.authorization)) [
  | inl e ↦ ground arith
  | inr (value, e) ↦ ground arith
]

require-none :
    (keys : KeyStore) (sha256 : String → String) (settings : Settings) (clocks : Clocks)
    (required : List String) (query : Bool) (request : Request) (st : AuthState (keys.State))
    → settings.auth_enabled ≡ true
    → extract_credential request query ≡ none
    → require keys sha256 settings clocks required query request st ≡ (error 401, st)
unfolding require
require-none keys sha256 settings clocks required query request st on h = ground arith

module _ (keys : KeyStore) (sha256 : String → String) (settings : Settings) (clocks : Clocks)
    (redis : Redis) (db : FlagStore) (codec : Codec) (md5 : String → String)
    (message : String → String → String) where
  -- With auth on, a request that carries no credential, in a header or in the query, is answered
  -- 401 by the thirteen routes named here, and none of the state that they could change has moved:
  -- creating, updating and deleting a flag; creating, listing and revoking keys; the evaluation; the
  -- ruleset; the stream; listing flags and reading one; the audit log; and the statistics.
  pub routes_unauthorized :
      (request : Request) (w : Here keys db redis) (read : db.State) (key : String)
      (creation : FlagCreate) (change : FlagUpdate) (wanted : ApiKeyCreate)
      (token_hex token_urlsafe : String) (now : ℕ) (payload : EvaluateRequest)
      (m : Moments redis.State db.State) (counts : Dict ℕ) (messages : List (Option String))
      (flag_key : Option String) (limit : ℕ)
      → settings.auth_enabled ≡ true
      → extract_credential request true ≡ none
      → (create_flag keys sha256 settings clocks db codec redis message request creation w
          ≡ (error 401, w))
        × (update_flag keys sha256 settings clocks db codec redis message read request key change w
            ≡ (error 401, w))
        × (delete_flag keys sha256 settings clocks db codec redis message read request key w
            ≡ (error 401, w))
        × (create_key_route keys sha256 settings clocks request wanted token_hex token_urlsafe now
              w.auth
            ≡ (error 401, w.auth))
        × (list_keys_route keys sha256 settings clocks request w.auth ≡ (error 401, w.auth))
        × (revoke_key_route keys sha256 settings clocks request key now w.auth
            ≡ (error 401, w.auth))
        × (evaluate_endpoint keys sha256 settings clocks redis db codec md5 request payload m w.auth
              counts
            ≡ (error 401, w.auth, counts, m.last))
        × (ruleset_endpoint keys sha256 settings clocks redis db codec md5 request m w.auth
            ≡ (error 401, w.auth, m.last))
        × (stream_endpoint keys sha256 settings clocks redis db codec md5 request messages w.auth
            ≡ (error 401, w.auth))
        × (audit_endpoint keys sha256 settings clocks redis db codec md5 request flag_key limit
              w.tables w.auth
            ≡ (error 401, w.auth))
        × (stats_endpoint keys sha256 settings clocks redis db codec md5 request w.tables counts
              w.auth
            ≡ (error 401, w.auth))
        × (list_flags_endpoint keys sha256 settings clocks redis db codec md5 request w.tables
              w.auth
            ≡ (error 401, w.auth))
        × (get_flag_endpoint keys sha256 settings clocks redis db codec md5 request key w.tables
              w.auth
            ≡ (error 401, w.auth))
  unfolding create_flag update_flag delete_flag create_key_route list_keys_route revoke_key_route
      guarded evaluate_endpoint ruleset_endpoint stream_endpoint audit_endpoint stats_endpoint
      list_flags_endpoint get_flag_endpoint
  routes_unauthorized request w read key creation change wanted token_hex token_urlsafe now payload
        m counts messages flag_key limit on h =
      let none_yet = extract_credential-none request h in
      let away : (required : List String)
          → require keys sha256 settings clocks required false request w.auth
            ≡ (error 401, w.auth) =
        λ required.
          require-none keys sha256 settings clocks required false request w.auth on none_yet in
      let away_query : (required : List String)
          → require keys sha256 settings clocks required true request w.auth ≡ (error 401, w.auth) =
        λ required. require-none keys sha256 settings clocks required true request w.auth on h in
      (
        rw (create_flag, away write_dep)
            (ap (λ r. (error 401, record w { auth = r.1 })) (away write_dep)),
        rw (update_flag, away write_dep)
            (ap (λ r. (error 401, record w { auth = r.1 })) (away write_dep)),
        rw (delete_flag, away write_dep)
            (ap (λ r. (error 401, record w { auth = r.1 })) (away write_dep)),
        rw (away admin_dep) refl,
        rw (away admin_dep) refl,
        rw (away admin_dep) refl,
        rw (evaluate_endpoint, away sdk_dep)
            (ap (λ r. (error 401, r.1, counts, m.last)) (away sdk_dep)),
        rw (ruleset_endpoint, away sdk_dep) (ap (λ r. (error 401, r.1, m.last)) (away sdk_dep)),
        rw (stream_endpoint, away_query sdk_dep) (ap (λ r. (error 401, r.1)) (away_query sdk_dep)),
        rw (audit_endpoint, away read_dep) (ap (λ r. (error 401, r.1)) (away read_dep)),
        rw (stats_endpoint, away read_dep) (ap (λ r. (error 401, r.1)) (away read_dep)),
        rw (list_flags_endpoint, away read_dep) (ap (λ r. (error 401, r.1)) (away read_dep)),
        rw (get_flag_endpoint, away read_dep) (ap (λ r. (error 401, r.1)) (away read_dep)),
      )
