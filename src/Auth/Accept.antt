-- ===== src/Auth/Accept.antt =====
-- ripcord/auth.py and ripcord/api/keys.py: a key from the moment it is minted until it is revoked.
use ripcord.Prelude.{
  ℕ, String, ◌≡◌, ap, ◌∙◌, sym, true, false, ◌⊎◌, inl, inr, none, some, List, [], arith, eq_iff,
  eq_refl, is_some, Bool-cases, Option-cases,
}
use ripcord.Auth.Key.{split_key, is_hex, is_empty_text, generate_key}
use ripcord.Auth.KeyFormat.{split-generate}
use ripcord.Auth.Store.{ApiKey, KeyStore}
use ripcord.Auth.Verify.{
  Settings, Clocks, AuthState, cached, is_bootstrap, row_principal, entry_principal, create_key,
  from_database, from_cache, authenticate, ok,
}
use ripcord.Auth.Sound.{IsMirror, Keeps, Keeps-refl, cached_hit}
use ripcord.Auth.Mirror.{
  Step, verify, look, late, create, revoke, others, Reach, here, next, Reach-IsMirror,
  IsMirror-empty,
}
use ripcord.Auth.Revoke.{authenticate-Keeps}
use ripcord.Auth.Kept.{create_key-Keeps, revoke_key-Keeps}

module _ (db : KeyStore) (sha256 : String → String) (settings : Settings) where
  open db use {State, select_key, select-key_id, insert, select-insert}

  Keeps-trans : (s t u : State) → Keeps db s t → Keeps db t u → Keeps db s u
  Keeps-trans s t u f g k r h =
      let (r', found, same) = f k r h in
      let (r'', found', same') = g k r' found in
      (
        r'',
        found',
        record {
          secret_hash = same'.secret_hash ∙ same.secret_hash;
          name = same'.name ∙ same.name;
          scopes = same'.scopes ∙ same.scopes;
          revoked = λ q. same'.revoked (same.revoked q);
        },
      )

  pub Reach-Keeps :
      {st st' : AuthState State} → Reach db sha256 settings st st' → Keeps db st.rows st'.rows
  Reach-Keeps {st} here = Keeps-refl db st.rows
  Reach-Keeps {st} (next r (verify clocks s full_key)) =
      Keeps-trans st.rows s.rows _ (Reach-Keeps r)
        (authenticate-Keeps db sha256 settings clocks s full_key)
  Reach-Keeps {st} (next r (look s key_id now)) = Reach-Keeps r
  Reach-Keeps {st} (next r (late clocks read s key_id secret keep)) = Reach-Keeps r
  Reach-Keeps {st} (next r (create s name scopes token_hex token_urlsafe now)) =
      Keeps-trans st.rows s.rows _ (Reach-Keeps r)
        (create_key-Keeps db sha256 s name scopes token_hex token_urlsafe now)
  Reach-Keeps {st} (next r (revoke s key_id now)) =
      Keeps-trans st.rows s.rows _ (Reach-Keeps r) (revoke_key-Keeps db s key_id now)
  Reach-Keeps {st} (next r (others s rows keep)) =
      Keeps-trans st.rows s.rows rows (Reach-Keeps r) keep

  -- A key whose row is live is accepted, from the cache or from the table.
  pub authenticate_live :
      (clocks : Clocks) (st : AuthState State) (full_key key_id secret : String) (row : ApiKey)
      → IsMirror db st
      → split_key full_key ≡ some (key_id, secret)
      → is_bootstrap settings full_key ≡ false
      → select_key st.rows key_id ≡ some row
      → is_some row.revoked_at ≡ false
      → row.secret_hash ≡ sha256 secret
      → (authenticate db sha256 settings clocks st full_key).0 ≡ some (row_principal row)
  unfolding authenticate from_cache from_database
  authenticate_live clocks st full_key key_id secret row m split b found live digest =
      elim (Option-cases (cached st.cache key_id clocks.read).0) [
        | inl miss ↦ ground (arith, eq_iff row.secret_hash (sha256 secret))
        | inr (e, hit) ↦
            let (r, there, same) = m key_id e (cached_hit st.cache key_id clocks.read e hit).0 in
            let this : r ≡ row = cc (there, found) in
            let id : row.key_id ≡ key_id = select-key_id st.rows key_id row found in
            let right : e.secret_hash ≡ sha256 secret =
              same.secret_hash ∙ ap (λ (x : ApiKey). x.secret_hash) this ∙ digest in
            let who : entry_principal key_id e ≡ row_principal row =
              cc (this, id, same.name, same.scopes) in
            ground (arith, eq_iff e.secret_hash (sha256 secret))
      ]

  -- What a creation that succeeds has put into the table.
  pub create_key-row :
      (st : AuthState State) (name : String) (scopes : List String)
      (token_hex token_urlsafe : String) (now : ℕ) (full_key : String) (minted : ApiKey)
      → (create_key db sha256 st name scopes token_hex token_urlsafe now).0 ≡ ok (full_key, minted)
      → (full_key ≡ (generate_key sha256 token_hex token_urlsafe).0)
        × (minted.key_id ≡ token_hex)
        × (minted.name ≡ name)
        × (minted.scopes ≡ scopes)
        × (minted.secret_hash ≡ sha256 token_urlsafe)
        × (select_key
              (create_key db sha256 st name scopes token_hex token_urlsafe now).1.rows
              token_hex
            ≡ some minted)
  unfolding create_key generate_key
  create_key-row st name scopes token_hex token_urlsafe now full_key minted h =
      let row : ApiKey = record {
        key_id = token_hex;
        secret_hash = sha256 token_urlsafe;
        name = name;
        scopes = scopes;
        created_at = now;
        last_used_at = none;
        revoked_at = none;
      } in
      elim (Option-cases (insert st.rows row)) [
        | inl failed ↦ absurd (ground arith)
        | inr (t, done) ↦
            let this : row ≡ minted = ground arith in
            (
              ground arith,
              ap (λ (x : ApiKey). x.key_id) (sym this),
              ap (λ (x : ApiKey). x.name) (sym this),
              ap (λ (x : ApiKey). x.scopes) (sym this),
              ap (λ (x : ApiKey). x.secret_hash) (sym this),
              rw (done, create_key, generate_key)
                  (select-insert st.rows t row token_hex done ∙ rw eq_refl (ap some this)),
            )
      ]

  -- A minted key, with a hexadecimal id and tokens that have a character, is accepted, with the
  -- name and the scopes that it was minted with, in every later state of a process in which its
  -- row is not revoked, whatever that process and others on its table did before and since. Only a
  -- key that equals the bootstrap key stands apart.
  pub create_key_accepted :
      (clocks : Clocks) (rows : State) (st st' : AuthState State) (name : String)
      (scopes : List String) (token_hex token_urlsafe : String) (now : ℕ) (full_key : String)
      (minted : ApiKey)
      → Reach db sha256 settings (record { cache = []; rows = rows }) st
      → is_hex token_hex ≡ true
      → is_empty_text token_hex ≡ false
      → is_empty_text token_urlsafe ≡ false
      → (create_key db sha256 st name scopes token_hex token_urlsafe now).0 ≡ ok (full_key, minted)
      → Reach db sha256 settings
          (create_key db sha256 st name scopes token_hex token_urlsafe now).1
          st'
      → is_bootstrap settings full_key ≡ false
      → (row : ApiKey) × (select_key st'.rows token_hex ≡ some row)
        × ((is_some row.revoked_at ≡ true)
            ⊎ ((authenticate db sha256 settings clocks st' full_key).0
                ≡ some (record { name = name; scopes = scopes; key_id = some token_hex })))
  create_key_accepted clocks rows st st' name scopes token_hex token_urlsafe now full_key minted r
        hex some_hex some_secret h later b =
      let (key, id, its_name, its_scopes, digest, there) =
        create_key-row st name scopes token_hex token_urlsafe now full_key minted h in
      let (row, found, same) = Reach-Keeps later token_hex minted there in
      let created : Step db sha256 settings st
          (create_key db sha256 st name scopes token_hex token_urlsafe now).1 =
        create st name scopes token_hex token_urlsafe now in
      let mirror : IsMirror db st' =
        Reach-IsMirror db sha256 settings
          (Reach-IsMirror db sha256 settings (IsMirror-empty db sha256 settings rows)
            (next r created))
          later in
      let split : split_key full_key ≡ some (token_hex, token_urlsafe) =
        ap split_key key ∙ split-generate sha256 token_hex token_urlsafe hex some_hex some_secret in
      elim (Bool-cases (is_some row.revoked_at)) [
        | inl gone ↦ (row, found, inl gone)
        | inr live ↦ (
          row,
          found,
          inr (
              authenticate_live clocks st' full_key token_hex token_urlsafe row mirror split b found
                live (same.secret_hash ∙ digest)
              ∙ cc (
                same.name,
                same.scopes,
                its_name,
                its_scopes,
                select-key_id st'.rows token_hex row found,
              )),
        )
      ]
