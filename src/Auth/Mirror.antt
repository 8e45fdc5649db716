-- ===== src/Auth/Mirror.antt =====
-- ripcord/auth.py and ripcord/api/keys.py: the steps of a process with a verification cache, beside
-- others on the same table of keys.
use ripcord.Prelude.{
  ℕ, String, ◌≡◌, refl, ap, ◌∙◌, sym, true, ◌⊎◌, inl, inr, none, some, List, [], arith, ◌==◌,
  is_some, Bool-cases, Option-cases,
}
use ripcord.Prelude.Dict
use ripcord.Prelude.Dict.{Dict, get-pop, get-empty}
use ripcord.Auth.Scopes.{Principal}
use ripcord.Auth.Key.{split_key, generate_key}
use ripcord.Auth.Store.{ApiKey, KeyStore}
use ripcord.Auth.Verify.{
  Settings, CachedKey, Clocks, AuthState, invalidate_key_cache, cached, is_bootstrap,
  bootstrap_principal, remember, touch_last_used, revoke_key, create_key, from_database, from_cache,
  authenticate,
}
use ripcord.Auth.Sound.{
  IsMirror, Keeps, Keeps-update, Keeps-touch, Keeps-insert, IsMirror-Keeps, get-cached,
  get-remember, Mirrors-SameCredential, IsVouched, authenticate-IsVouched,
}

module _ (db : KeyStore) (sha256 : String → String) (settings : Settings) (clocks : Clocks) where
  open db use {State, select_key, select-key_id}

  IsMirror-remember :
      (st : AuthState State) (key_id : String) (row : ApiKey)
      → select_key st.rows key_id ≡ some row
      → IsMirror db st
      → IsMirror db (record st { cache = remember settings clocks key_id row st.cache })
  IsMirror-remember st key_id row found m k e h =
      elim (get-remember settings clocks key_id row st.cache k e h) [
        | inl old ↦ m k e old
        | inr (this, same, _) ↦ (row, ap (select_key st.rows) (sym this) ∙ found, same)
      ]

  from_database-IsMirror :
      (key_id secret : String) (st : AuthState State)
      → IsMirror db st
      → IsMirror db (from_database db sha256 settings clocks key_id secret st).1
  unfolding from_database
  from_database-IsMirror key_id secret st m = elim (Option-cases (select_key st.rows key_id)) [
    | inl e ↦ rw (e, from_database) m
    | inr (row, e) ↦ elim (Bool-cases (is_some row.revoked_at)) [
      | inl gone ↦ rw (e, gone, from_database) m
      | inr live ↦ elim (Bool-cases (row.secret_hash == sha256 secret)) [
        | inr wrong ↦ rw (e, live, wrong, from_database) m
        | inl right ↦
            let id : row.key_id ≡ key_id = select-key_id st.rows key_id row e in
            rw (e, live, right, from_database)
              (IsMirror-Keeps db (remember settings clocks key_id row st.cache) st.rows
                (touch_last_used db st.rows row clocks.utc)
                (Keeps-touch db st.rows row clocks.utc (ap (select_key st.rows) id ∙ e))
                (IsMirror-remember st key_id row e m))
      ]
    ]
  ]

  -- An entry stored for a row that was read before others changed the table.
  pub late-IsMirror :
      (read : State) (key_id secret : String) (st : AuthState State)
      → Keeps db read st.rows
      → IsMirror db st
      → IsMirror db (record st {
        cache =
            (from_database db sha256 settings clocks key_id secret
              (record st { rows = read })).1.cache;
      })
  unfolding from_database
  late-IsMirror read key_id secret st keep m k e h = elim (Option-cases (select_key read key_id)) [
    | inl q ↦ m k e (ground arith)
    | inr (row, q) ↦ elim (Bool-cases (is_some row.revoked_at)) [
      | inl gone ↦ m k e (ground arith)
      | inr live ↦ elim (Bool-cases (row.secret_hash == sha256 secret)) [
        | inr wrong ↦ m k e (ground arith)
        | inl right ↦ elim (get-remember settings clocks key_id row st.cache k e (ground arith)) [
          | inl old ↦ m k e old
          | inr (this, same, _) ↦
              let (row', found, cred) = keep key_id row q in
              (row', ap (select_key st.rows) (sym this) ∙ found, Mirrors-SameCredential cred same)
        ]
      ]
    ]
  ]

  from_cache-IsMirror :
      (key_id secret : String) (st : AuthState State)
      → IsMirror db st
      → IsMirror db (from_cache db sha256 settings clocks key_id secret st).1
  unfolding from_cache
  from_cache-IsMirror key_id secret st m =
      let m' : IsMirror db (record st { cache = (cached st.cache key_id clocks.read).1 }) =
        λ k e h. m k e (get-cached st.cache key_id k clocks.read e h) in
      elim (Option-cases (cached st.cache key_id clocks.read).0) [
        | inl miss ↦ rw (miss, from_cache) (from_database-IsMirror key_id secret _ m')
        | inr (e, hit) ↦ elim (Bool-cases (e.secret_hash == sha256 secret)) [
          | inl right ↦ rw (hit, right, from_cache) m'
          | inr wrong ↦ rw (hit, wrong, from_cache) m'
        ]
      ]

  authenticate-IsMirror :
      (st : AuthState State) (full_key : String)
      → IsMirror db st
      → IsMirror db (authenticate db sha256 settings clocks st full_key).1
  unfolding authenticate
  authenticate-IsMirror st full_key m = elim (Option-cases (split_key full_key)) [
    | inl e ↦ rw (e, authenticate) m
    | inr ((key_id, secret), e) ↦ elim (Bool-cases (is_bootstrap settings full_key)) [
      | inl b ↦ rw (e, b, authenticate) m
      | inr b ↦ rw (e, b, authenticate) (from_cache-IsMirror key_id secret st m)
    ]
  ]

module _ (db : KeyStore) where
  open db use {State, select_key, select-key_id, insert, update}

  create_key-IsMirror :
      (sha256 : String → String) (st : AuthState State) (name : String) (scopes : List String)
      (token_hex token_urlsafe : String) (now : ℕ)
      → IsMirror db st
      → IsMirror db (create_key db sha256 st name scopes token_hex token_urlsafe now).1
  unfolding create_key generate_key
  create_key-IsMirror sha256 st name scopes token_hex token_urlsafe now m =
      let row : ApiKey = record {
        key_id = token_hex;
        secret_hash = sha256 token_urlsafe;
        name = name;
        scopes = scopes;
        created_at = now;
        last_used_at = none;
        revoked_at = none;
      } in
      elim (Option-cases (insert st.rows row)) [
        | inl failed ↦ rw (failed, create_key, generate_key) m
        | inr (t, done) ↦
            rw (done, create_key, generate_key)
              (IsMirror-Keeps db st.cache st.rows t (Keeps-insert db st.rows t row done) m)
      ]

  revoke_key-IsMirror :
      (st : AuthState State) (key_id : String) (now : ℕ)
      → IsMirror db st
      → IsMirror db (revoke_key db st key_id now).1
  unfolding revoke_key invalidate_key_cache
  revoke_key-IsMirror st key_id now m = elim (Option-cases (select_key st.rows key_id)) [
    | inl e ↦ rw (e, revoke_key) m
    | inr (row, e) ↦
        let revoked : ApiKey = record row { revoked_at = some now } in
        elim (Bool-cases (is_some row.revoked_at)) [
          | inl gone ↦ rw (e, gone, revoke_key) m
          | inr live ↦ elim (Option-cases (update st.rows revoked)) [
            | inl failed ↦ rw (e, live, failed, revoke_key) m
            | inr (t, done) ↦
                let id : row.key_id ≡ key_id = select-key_id st.rows key_id row e in
                let keep : Keeps db st.rows t =
                  Keeps-update db st.rows t row revoked (ap (select_key st.rows) id ∙ e)
                    (record { secret_hash = refl; name = refl; scopes = refl; revoked = λ _. refl })
                    done in
                rw (e, live, done, revoke_key)
                  (IsMirror-Keeps db (Dict.pop st.cache key_id) st.rows t keep
                    (λ k x h. m k x (ground (arith, get-pop st.cache key_id k))))
          ]
        ]
  ]

module _ (db : KeyStore) (sha256 : String → String) (settings : Settings) where
  open db use {State}

  -- One step of a process, or of the others on the table that it shares with them: they add keys,
  -- change times and revoke, and change no credential otherwise. A request may run as one step, or
  -- look in the cache and store its entry later, with any steps between its SELECT and that.
  pub data Step : AuthState State → AuthState State → Type 0 where
    verify :
        (clocks : Clocks) (st : AuthState State) (full_key : String)
        → Step st (authenticate db sha256 settings clocks st full_key).1
    -- The lookup of a request in the cache, which drops an entry that has expired.
    look :
        (st : AuthState State) (key_id : String) (now : ℕ)
        → Step st (record st { cache = (cached st.cache key_id now).1 })
    -- A request that missed the cache, and read the table at an earlier moment, stores its entry.
    late :
        (clocks : Clocks) (read : State) (st : AuthState State) (key_id secret : String)
        → Keeps db read st.rows
        → Step st (record st {
          cache =
              (from_database db sha256 settings clocks key_id secret
                (record st { rows = read })).1.cache;
        })
    create :
        (st : AuthState State) (name : String) (scopes : List String)
        (token_hex token_urlsafe : String) (now : ℕ)
        → Step st (create_key db sha256 st name scopes token_hex token_urlsafe now).1
    revoke :
        (st : AuthState State) (key_id : String) (now : ℕ) → Step st (revoke_key db st key_id now).1
    others :
        (st : AuthState State) (rows : State)
        → Keeps db st.rows rows
        → Step st (record st { rows = rows })

  pub data Reach (start : AuthState State) : AuthState State → Type 0 where
    here : Reach start start
    next : {st st' : AuthState State} → Reach start st → Step st st' → Reach start st'

  Step-IsMirror : {st st' : AuthState State} → Step st st' → IsMirror db st → IsMirror db st'
  Step-IsMirror (verify clocks st full_key) m =
      authenticate-IsMirror db sha256 settings clocks st full_key m
  Step-IsMirror (look st key_id now) m = λ k e h. m k e (get-cached st.cache key_id k now e h)
  Step-IsMirror (late clocks read st key_id secret keep) m =
      late-IsMirror db sha256 settings clocks read key_id secret st keep m
  Step-IsMirror (create st name scopes token_hex token_urlsafe now) m =
      create_key-IsMirror db sha256 st name scopes token_hex token_urlsafe now m
  Step-IsMirror (revoke st key_id now) m = revoke_key-IsMirror db st key_id now m
  Step-IsMirror (others st rows keep) m = IsMirror-Keeps db st.cache st.rows rows keep m

  pub Reach-IsMirror :
      {start st : AuthState State} → IsMirror db start → Reach start st → IsMirror db st
  Reach-IsMirror m here = m
  Reach-IsMirror m (next r step) = Step-IsMirror step (Reach-IsMirror m r)

  pub IsMirror-empty : (rows : State) → IsMirror db (record { cache = []; rows = rows })
  IsMirror-empty rows k e h = absurd (cc (get-empty {V = CachedKey} k, h))

  -- After any steps from an empty cache a key is accepted only as the bootstrap key, or when it
  -- splits into a key id and a secret whose digest the table holds for that id; the principal is
  -- then that row's, on a cache hit too.
  pub authenticate_sound :
      (clocks : Clocks) (rows : State) (st : AuthState State) (full_key : String) (p : Principal)
      → Reach (record { cache = []; rows = rows }) st
      → (authenticate db sha256 settings clocks st full_key).0 ≡ some p
      → ((is_bootstrap settings full_key ≡ true) × (p ≡ bootstrap_principal))
        ⊎ ((key_id : String) × (secret : String) × (split_key full_key ≡ some (key_id, secret))
            × IsVouched db sha256 settings clocks st key_id secret p)
  authenticate_sound clocks rows st full_key p r h =
      authenticate-IsVouched db sha256 settings clocks st full_key p
        (Reach-IsMirror (IsMirror-empty rows) r) h
