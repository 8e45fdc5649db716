-- ===== src/Auth/Revoke.antt =====
-- ripcord/auth.py and ripcord/api/keys.py: the verification cache after a request and after a
-- revocation in the same process.
use ripcord.Prelude.{
  ℕ, ◌+◌, ◌≤◌, String, ◌≡◌, refl, ap, ◌∙◌, sym, true, false, ◌⊎◌, inl, inr, Option, none, some,
  arith, ◌==◌, eq_iff, is_some, Bool-cases, Option-cases,
}
use ripcord.Prelude.Dict
use ripcord.Prelude.Dict.{Dict, get-pop}
use ripcord.Auth.Scopes.{Principal}
use ripcord.Auth.Key.{split_key}
use ripcord.Auth.Store.{ApiKey, KeyStore}
use ripcord.Auth.Verify.{
  Settings, CachedKey, Clocks, AuthState, ok, invalidate_key_cache, cached, is_bootstrap,
  revoke_key, from_database, from_cache, authenticate,
}
use ripcord.Auth.Sound.{Keeps, Keeps-refl, Keeps-touch, get-cached, cached_hit, get-remember}

module _ (db : KeyStore) (sha256 : String → String) (settings : Settings) (clocks : Clocks) where
  open db use {State, select_key, select-key_id}

  -- An entry that a request has newly cached: its key has a live row, the request was accepted, and
  -- the entry lives for the configured time.
  abbrev pub IsNew : AuthState State → Option Principal → String → CachedKey → Type 0
  IsNew st result k e =
      (row : ApiKey) × (select_key st.rows k ≡ some row)
      × (is_some row.revoked_at ≡ false)
      × (is_some result ≡ true)
      × (e.expires_at ≡ clocks.store + settings.auth_cache_seconds)

  -- The part after the cache, likewise.
  pub from_database_caches :
      (key_id secret : String) (st : AuthState State) (k : String) (e : CachedKey)
      → Dict.get (from_database db sha256 settings clocks key_id secret st).1.cache k ≡ some e
      → (Dict.get st.cache k ≡ some e)
        ⊎ IsNew st (from_database db sha256 settings clocks key_id secret st).0 k e
  unfolding from_database
  from_database_caches key_id secret st k e h = elim (Option-cases (select_key st.rows key_id)) [
    | inl q ↦ inl (ground arith)
    | inr (row, q) ↦ elim (Bool-cases (is_some row.revoked_at)) [
      | inl gone ↦ inl (ground arith)
      | inr live ↦ elim (Bool-cases (row.secret_hash == sha256 secret)) [
        | inr wrong ↦ inl (ground arith)
        | inl right ↦ elim (get-remember settings clocks key_id row st.cache k e (ground arith)) [
          | inl old ↦ inl old
          | inr (this, _, until) ↦
              inr (row, ap (select_key st.rows) (sym this) ∙ q, live, ground arith, until)
        ]
      ]
    ]
  ]

  from_cache_caches :
      (key_id secret : String) (st : AuthState State) (k : String) (e : CachedKey)
      → Dict.get (from_cache db sha256 settings clocks key_id secret st).1.cache k ≡ some e
      → (Dict.get st.cache k ≡ some e)
        ⊎ IsNew st (from_cache db sha256 settings clocks key_id secret st).0 k e
  unfolding from_cache
  from_cache_caches key_id secret st k e h =
      let st' : AuthState State = record st { cache = (cached st.cache key_id clocks.read).1 } in
      elim (Option-cases (cached st.cache key_id clocks.read).0) [
        | inl miss ↦ elim (from_database_caches key_id secret st' k e (ground arith)) [
          | inl old ↦ inl (get-cached st.cache key_id k clocks.read e old)
          | inr (row, found, live, accepted, until) ↦ inr (row, found, live, ground arith, until)
        ]
        | inr (x, hit) ↦ inl (get-cached st.cache key_id k clocks.read e (ground arith))
      ]

  -- After a request a cached entry was there before it, or the request was accepted on a row that is
  -- not revoked, and the entry expires within the configured time. A refused key caches nothing.
  pub authenticate_caches :
      (st : AuthState State) (full_key k : String) (e : CachedKey)
      → Dict.get (authenticate db sha256 settings clocks st full_key).1.cache k ≡ some e
      → (Dict.get st.cache k ≡ some e)
        ⊎ ((row : ApiKey) × (select_key st.rows k ≡ some row)
            × (is_some row.revoked_at ≡ false)
            × (is_some (authenticate db sha256 settings clocks st full_key).0 ≡ true)
            × (e.expires_at ≡ clocks.store + settings.auth_cache_seconds))
  unfolding authenticate
  authenticate_caches st full_key k e h = elim (Option-cases (split_key full_key)) [
    | inl q ↦ inl (ground arith)
    | inr ((key_id, secret), q) ↦ elim (Bool-cases (is_bootstrap settings full_key)) [
      | inl b ↦ inl (ground arith)
      | inr b ↦ elim (from_cache_caches key_id secret st k e (ground arith)) [
        | inl old ↦ inl old
        | inr (row, found, live, accepted, until) ↦ inr (row, found, live, ground arith, until)
      ]
    ]
  ]

  from_database-Keeps :
      (key_id secret : String) (st : AuthState State)
      → Keeps db st.rows (from_database db sha256 settings clocks key_id secret st).1.rows
  unfolding from_database
  from_database-Keeps key_id secret st = elim (Option-cases (select_key st.rows key_id)) [
    | inl e ↦ rw (e, from_database) (Keeps-refl db st.rows)
    | inr (row, e) ↦ elim (Bool-cases (is_some row.revoked_at)) [
      | inl gone ↦ rw (e, gone, from_database) (Keeps-refl db st.rows)
      | inr live ↦ elim (Bool-cases (row.secret_hash == sha256 secret)) [
        | inr wrong ↦ rw (e, live, wrong, from_database) (Keeps-refl db st.rows)
        | inl right ↦
            rw (e, live, right, from_database)
              (Keeps-touch db st.rows row clocks.utc
                (ap (select_key st.rows) (select-key_id st.rows key_id row e) ∙ e))
      ]
    ]
  ]

  from_cache-Keeps :
      (key_id secret : String) (st : AuthState State)
      → Keeps db st.rows (from_cache db sha256 settings clocks key_id secret st).1.rows
  unfolding from_cache
  from_cache-Keeps key_id secret st = elim (Option-cases (cached st.cache key_id clocks.read).0) [
    | inl miss ↦ rw (miss, from_cache) (from_database-Keeps key_id secret _)
    | inr (e, hit) ↦ elim (Bool-cases (e.secret_hash == sha256 secret)) [
      | inl right ↦ rw (hit, right, from_cache) (Keeps-refl db st.rows)
      | inr wrong ↦ rw (hit, wrong, from_cache) (Keeps-refl db st.rows)
    ]
  ]

  pub authenticate-Keeps :
      (st : AuthState State) (full_key : String)
      → Keeps db st.rows (authenticate db sha256 settings clocks st full_key).1.rows
  unfolding authenticate
  authenticate-Keeps st full_key = elim (Option-cases (split_key full_key)) [
    | inl e ↦ rw (e, authenticate) (Keeps-refl db st.rows)
    | inr ((key_id, secret), e) ↦ elim (Bool-cases (is_bootstrap settings full_key)) [
      | inl b ↦ rw (e, b, authenticate) (Keeps-refl db st.rows)
      | inr b ↦ rw (e, b, authenticate) (from_cache-Keeps key_id secret st)
    ]
  ]

  -- A key whose row is revoked, and whose cache entry is gone or has expired, is refused.
  pub revoked_refused :
      (st : AuthState State) (full_key key_id secret : String) (row : ApiKey)
      → split_key full_key ≡ some (key_id, secret)
      → is_bootstrap settings full_key ≡ false
      → select_key st.rows key_id ≡ some row
      → is_some row.revoked_at ≡ true
      → ((e : CachedKey) → Dict.get st.cache key_id ≡ some e → e.expires_at ≤ clocks.read)
      → (authenticate db sha256 settings clocks st full_key).0 ≡ none
  unfolding authenticate from_cache from_database
  revoked_refused st full_key key_id secret row split b found gone quiet =
      elim (Option-cases (cached st.cache key_id clocks.read).0) [
        | inl miss ↦ ground arith
        | inr (e, hit) ↦
            let (there, later) = cached_hit st.cache key_id clocks.read e hit in
            absurd (omega (arith, quiet e there))
      ]

module _ (db : KeyStore) where
  open db use {State, select_key, select-key_id, update, select-update}

  -- A revocation that was carried out takes effect at once in its own process: the next request with
  -- that key id is refused, whatever the cache held, unless it carries the bootstrap key.
  pub revoke_key_refused :
      (sha256 : String → String) (settings : Settings) (clocks : Clocks) (st : AuthState State)
      (full_key key_id secret : String) (row revoked : ApiKey) (now : ℕ)
      → split_key full_key ≡ some (key_id, secret)
      → is_bootstrap settings full_key ≡ false
      → select_key st.rows key_id ≡ some row
      → row.revoked_at ≡ none
      → (revoke_key db st key_id now).0 ≡ ok revoked
      → (authenticate db sha256 settings clocks (revoke_key db st key_id now).1 full_key).0 ≡ none
  unfolding revoke_key invalidate_key_cache
  revoke_key_refused sha256 settings clocks st full_key key_id secret row revoked now split b found
        live h =
      let after : ApiKey = record row { revoked_at = some now } in
      let id : row.key_id ≡ key_id = select-key_id st.rows key_id row found in
      elim (Option-cases (update st.rows after)) [
        | inl failed ↦ absurd (ground arith)
        | inr (t, done) ↦
            let state : (revoke_key db st key_id now).1
                ≡ record { cache = Dict.pop st.cache key_id; rows = t } =
              ground arith in
            rw state (
              revoked_refused db sha256 settings clocks
                (record { cache = Dict.pop st.cache key_id; rows = t }) full_key key_id secret after
                split b
                (select-update st.rows t row after key_id (ap (select_key st.rows) id ∙ found) done
                  ∙ ground (arith, eq_iff row.key_id key_id))
                refl
                (λ e there.
                  absurd (ground (arith, get-pop st.cache key_id key_id, eq_iff key_id key_id))))
      ]
