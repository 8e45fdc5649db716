-- ===== src/Auth/Kept.antt =====
-- ripcord/auth.py and ripcord/api/keys.py: what the minting and the revocation of a key keep.
use ripcord.Prelude.{
  ℕ, String, ◌≡◌, refl, ap, ◌∙◌, inl, inr, none, some, List, arith, is_some, Bool-cases,
  Option-cases,
}
use ripcord.Prelude.Dict
use ripcord.Prelude.Dict.{Dict, get-pop, get-empty}
use ripcord.Auth.Key.{generate_key}
use ripcord.Auth.Store.{ApiKey, KeyStore}
use ripcord.Auth.Verify.{CachedKey, AuthState, invalidate_key_cache, revoke_key, create_key}
use ripcord.Auth.Sound.{Keeps, Keeps-refl, Keeps-update, Keeps-insert}

module _ (db : KeyStore) where
  open db use {State, select_key, select-key_id, insert, update}

  pub create_key-Keeps :
      (sha256 : String → String) (st : AuthState State) (name : String) (scopes : List String)
      (token_hex token_urlsafe : String) (now : ℕ)
      → Keeps db st.rows (create_key db sha256 st name scopes token_hex token_urlsafe now).1.rows
  unfolding create_key generate_key
  create_key-Keeps sha256 st name scopes token_hex token_urlsafe now =
      let row : ApiKey = record {
        key_id = token_hex;
        secret_hash = sha256 token_urlsafe;
        name = name;
        scopes = scopes;
        created_at = now;
        last_used_at = none;
        revoked_at = none;
      } in
      elim (Option-cases (insert st.rows row)) [
        | inl failed ↦ rw (failed, create_key, generate_key) (Keeps-refl db st.rows)
        | inr (t, done) ↦ rw (done, create_key, generate_key) (Keeps-insert db st.rows t row done)
      ]

  -- A revocation adds no entry, and keeps every credential.
  pub revoke_key-Keeps :
      (st : AuthState State) (key_id : String) (now : ℕ)
      → Keeps db st.rows (revoke_key db st key_id now).1.rows
  unfolding revoke_key
  revoke_key-Keeps st key_id now = elim (Option-cases (select_key st.rows key_id)) [
    | inl e ↦ rw (e, revoke_key) (Keeps-refl db st.rows)
    | inr (row, e) ↦
        let revoked : ApiKey = record row { revoked_at = some now } in
        elim (Bool-cases (is_some row.revoked_at)) [
          | inl gone ↦ rw (e, gone, revoke_key) (Keeps-refl db st.rows)
          | inr live ↦ elim (Option-cases (update st.rows revoked)) [
            | inl failed ↦ rw (e, live, failed, revoke_key) (Keeps-refl db st.rows)
            | inr (t, done) ↦
                rw (e, live, done, revoke_key)
                  (Keeps-update db st.rows t row revoked
                    (ap (select_key st.rows) (select-key_id st.rows key_id row e) ∙ e)
                    (record { secret_hash = refl; name = refl; scopes = refl; revoked = λ _. refl })
                    done)
          ]
        ]
  ]

  pub get-revoke_key :
      (st : AuthState State) (key_id k : String) (now : ℕ) (e : CachedKey)
      → Dict.get (revoke_key db st key_id now).1.cache k ≡ some e
      → Dict.get st.cache k ≡ some e
  unfolding revoke_key invalidate_key_cache
  get-revoke_key st key_id k now e h = ground (arith, get-pop st.cache key_id k)

  pub get-create_key :
      (sha256 : String → String) (st : AuthState State) (name : String) (scopes : List String)
      (token_hex token_urlsafe : String) (now : ℕ)
      → (create_key db sha256 st name scopes token_hex token_urlsafe now).1.cache ≡ st.cache
  unfolding create_key
  get-create_key sha256 st name scopes token_hex token_urlsafe now = ground arith
