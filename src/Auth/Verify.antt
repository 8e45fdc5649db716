-- ===== src/Auth/Verify.antt =====
-- ripcord/auth.py: `_touch_last_used`, the verification cache and `authenticate`;
-- ripcord/api/keys.py: `create_key`, `list_keys`, `revoke_key`.
--
-- `hmac.compare_digest` is equality: its running time is not modelled. The in-process cache is a
-- dict, and the clocks that a request reads are arguments.
use ripcord.Prelude.{
  ℕ, ◌+◌, String, Bool, false, not, ◌&&◌, Option, none, some, List, [], ◌∷◌, ◌==◌, ltb, leb,
  is_some, if◌then◌else◌,
}
use ripcord.Prelude.Dict
use ripcord.Prelude.Dict.{Dict}
use ripcord.Auth.Scopes.{Principal, scope_admin}
use ripcord.Auth.Key.{split_key, is_empty_text, generate_key}
use ripcord.Auth.Store.{ApiKey, KeyStore}

-- What authentication reads of ripcord/config.py.
pub record Settings : Type 0 where
  pub auth_enabled : Bool
  pub auth_cache_seconds : ℕ
  pub bootstrap_admin_key : Option String

pub record CachedKey : Type 0 where
  pub secret_hash : String
  pub name : String
  pub scopes : List String
  pub expires_at : ℕ

-- `time.monotonic()` where the cache is read and where it is written, and `datetime.now(UTC)`.
pub record Clocks : Type 0 where
  pub read : ℕ
  pub store : ℕ
  pub utc : ℕ

-- One process's cache, and the table.
pub record AuthState (S : Type 0) : Type 0 where
  pub cache : Dict CachedKey
  pub rows : S

-- `invalidate_key_cache`
unfoldable pub invalidate_key_cache : Dict CachedKey → Option String → Dict CachedKey
invalidate_key_cache cache none = []
invalidate_key_cache cache (some key_id) = Dict.pop cache key_id

-- `_cached`: an entry that has expired is dropped.
unfoldable pub cached : Dict CachedKey → String → ℕ → Option CachedKey × Dict CachedKey
cached cache key_id now = elim (Dict.get cache key_id) [
  | none ↦ (none, cache)
  | some entry ↦
      if leb entry.expires_at now then (none, Dict.pop cache key_id) else (some entry, cache)
]

abbrev pub last_used_refresh : ℕ
last_used_refresh = 300000000

-- The early return of `_touch_last_used`: the column is recent enough.
unfoldable pub recently_used : ApiKey → ℕ → Bool
recently_used row now = elim row.last_used_at [
  | none ↦ false
  | some t ↦ ltb now (t + last_used_refresh)
]

-- `bootstrap and hmac.compare_digest(full_key, bootstrap)`
unfoldable pub is_bootstrap : Settings → String → Bool
is_bootstrap settings full_key = elim settings.bootstrap_admin_key [
  | none ↦ false
  | some bootstrap ↦ not (is_empty_text bootstrap) && full_key == bootstrap
]

abbrev pub bootstrap_principal : Principal
bootstrap_principal = record { name = "bootstrap"; scopes = scope_admin ∷ []; key_id = none }

abbrev pub row_principal : ApiKey → Principal
row_principal row = record { name = row.name; scopes = row.scopes; key_id = some row.key_id }

abbrev pub entry_principal : String → CachedKey → Principal
entry_principal key_id entry = record {
  name = entry.name;
  scopes = entry.scopes;
  key_id = some key_id;
}

-- The entry that a verified row leaves, if the cache is on.
unfoldable pub remember : Settings → Clocks → String → ApiKey → Dict CachedKey → Dict CachedKey
remember settings clocks key_id row cache =
    if ltb 0 settings.auth_cache_seconds
    then Dict.put cache key_id (record {
      secret_hash = row.secret_hash;
      name = row.name;
      scopes = row.scopes;
      expires_at = clocks.store + settings.auth_cache_seconds;
    })
    else cache

-- A commit that failed leaves the table as it was.
abbrev pub after_commit {ℓ} : {S : Type ℓ} → Option S → S → S
after_commit none s = s
after_commit (some t) s = t

-- A route's answer: a body, or the status of an error.
pub data Reply {ℓ} (A : Type ℓ) : Type ℓ where
  ok : A → Reply A
  error : ℕ → Reply A

module _ (db : KeyStore) where
  open db use {State, select_key, select_all, insert, update}

  -- `_touch_last_used`
  unfoldable pub touch_last_used : State → ApiKey → ℕ → State
  touch_last_used rows row now =
      if recently_used row now
      then rows
      else after_commit (update rows (record row { last_used_at = some now })) rows

  -- `revoke_key`: 404 for an unknown id, nothing to do for a key that is revoked already.
  unfoldable pub revoke_key : AuthState State → String → ℕ → Reply ApiKey × AuthState State
  revoke_key st key_id now = elim (select_key st.rows key_id) [
    | none ↦ (error 404, st)
    | some row ↦
        if is_some row.revoked_at
        then (ok row, st)
        else elim (update st.rows (record row { revoked_at = some now })) [
          | none ↦ (error 500, st)
          | some rows ↦ (
            ok (record row { revoked_at = some now }),
            record { cache = invalidate_key_cache st.cache (some key_id); rows = rows },
          )
        ]
  ]

  abbrev pub list_keys : AuthState State → List ApiKey
  list_keys st = select_all st.rows

  module _ (sha256 : String → String) where
    -- `create_key` of the routes, and the body of the CLI's `_create_key` past its check of the
    -- scopes; the tokens come from `secrets`. The full key is in the answer alone.
    unfoldable pub create_key :
        AuthState State
        → String
        → List String
        → String
        → String
        → ℕ
        → Reply (String × ApiKey) × AuthState State
    create_key st name scopes token_hex token_urlsafe now =
        let (full_key, key_id, secret_hash) = generate_key sha256 token_hex token_urlsafe in
        let row : ApiKey = record {
          key_id = key_id;
          secret_hash = secret_hash;
          name = name;
          scopes = scopes;
          created_at = now;
          last_used_at = none;
          revoked_at = none;
        } in
        elim (insert st.rows row) [
          | none ↦ (error 500, st)
          | some rows ↦ (ok (full_key, row), record st { rows = rows })
        ]

    module _ (settings : Settings) (clocks : Clocks) where
      -- The lookup in the table, after a miss in the cache.
      unfoldable pub from_database :
          String → String → AuthState State → Option Principal × AuthState State
      from_database key_id secret st = elim (select_key st.rows key_id) [
        | none ↦ (none, st)
        | some row ↦
            if is_some row.revoked_at
            then (none, st)
            else if not (row.secret_hash == sha256 secret)
            then (none, st)
            else (
              some (row_principal row),
              record {
                cache = remember settings clocks key_id row st.cache;
                rows = touch_last_used st.rows row clocks.utc;
              },
            )
      ]

      unfoldable pub from_cache :
          String → String → AuthState State → Option Principal × AuthState State
      from_cache key_id secret st =
          let (hit, cache) = cached st.cache key_id clocks.read in
          elim hit [
            | some entry ↦
                if not (entry.secret_hash == sha256 secret)
                then (none, record st { cache = cache })
                else (some (entry_principal key_id entry), record st { cache = cache })
            | none ↦ from_database key_id secret (record st { cache = cache })
          ]

      unfoldable pub authenticate : AuthState State → String → Option Principal × AuthState State
      authenticate st full_key = elim (split_key full_key) [
        | none ↦ (none, st)
        | some (key_id, secret) ↦
            if is_bootstrap settings full_key
            then (some bootstrap_principal, st)
            else from_cache key_id secret st
      ]
