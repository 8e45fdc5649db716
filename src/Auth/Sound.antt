-- ===== src/Auth/Sound.antt =====
-- ripcord/auth.py: `authenticate`, its verification cache and the table of keys.
use ripcord.Prelude.{
  none, ℕ, ◌+◌, ◌<◌, String, ◌≡◌, refl, ap, ◌∙◌, sym, true, ◌⊎◌, inl, inr, some, arith, ◌==◌,
  eq_iff, ltb, is_some, Bool-cases, Option-cases,
}
use mathlib.Core.Path.{subst}
use ripcord.Prelude.Dict
use ripcord.Prelude.Dict.{Dict, get-pop, get-put}
use ripcord.Auth.Scopes.{Principal}
use ripcord.Auth.Key.{split_key}
use ripcord.Auth.Store.{ApiKey, KeyStore}
use ripcord.Auth.Verify.{
  Settings, CachedKey, Clocks, AuthState, cached, recently_used, is_bootstrap, bootstrap_principal,
  row_principal, entry_principal, remember, touch_last_used, from_database, from_cache,
  authenticate,
}

-- Two states of one credential: what verification reads is the same, and a revocation stays.
pub record SameCredential (r s : ApiKey) : Type 0 where
  pub secret_hash : s.secret_hash ≡ r.secret_hash
  pub name : s.name ≡ r.name
  pub scopes : s.scopes ≡ r.scopes
  pub revoked : is_some r.revoked_at ≡ true → is_some s.revoked_at ≡ true

-- A cache entry mirrors the row of its key.
pub record Mirrors (row : ApiKey) (entry : CachedKey) : Type 0 where
  pub secret_hash : entry.secret_hash ≡ row.secret_hash
  pub name : entry.name ≡ row.name
  pub scopes : entry.scopes ≡ row.scopes

pub Mirrors-SameCredential :
    {r s : ApiKey} {e : CachedKey} → SameCredential r s → Mirrors r e → Mirrors s e
Mirrors-SameCredential c m = record {
  secret_hash = m.secret_hash ∙ sym c.secret_hash;
  name = m.name ∙ sym c.name;
  scopes = m.scopes ∙ sym c.scopes;
}

pub SameCredential-refl : (r : ApiKey) → SameCredential r r
SameCredential-refl r = record { secret_hash = refl; name = refl; scopes = refl; revoked = λ h. h }

module _ (db : KeyStore) where
  open db use {
    State, select_key, insert, update, select-key_id, select-update, select-insert, insert_unique,
  }

  -- Every entry of the cache mirrors a row of the table.
  abbrev pub IsMirror : AuthState State → Type 0
  IsMirror st =
      (k : String) (e : CachedKey)
      → Dict.get st.cache k ≡ some e
      → (row : ApiKey) × (select_key st.rows k ≡ some row) × Mirrors row e

  -- A change of the table keeps every credential that it has.
  abbrev pub Keeps : State → State → Type 0
  Keeps s t =
      (k : String) (r : ApiKey)
      → select_key s k ≡ some r
      → (r' : ApiKey) × (select_key t k ≡ some r') × SameCredential r r'

  pub Keeps-refl : (s : State) → Keeps s s
  Keeps-refl s k r h = (r, h, SameCredential-refl r)

  pub Keeps-update :
      (s t : State) (old row : ApiKey)
      → select_key s row.key_id ≡ some old
      → SameCredential old row
      → update s row ≡ some t
      → Keeps s t
  Keeps-update s t old row found same h k r e = elim (Bool-cases (row.key_id == k)) [
    | inl this ↦
        let id : row.key_id ≡ k = (eq_iff row.key_id k).0 this in
        let was : old ≡ r = ground arith in
        (
          row,
          select-update s t old row k found h ∙ rw this refl,
          subst (λ x. SameCredential x row) was same,
        )
    | inr other ↦ (r, select-update s t old row k found h ∙ rw other e, SameCredential-refl r)
  ]

  pub Keeps-touch :
      (s : State) (row : ApiKey) (now : ℕ)
      → select_key s row.key_id ≡ some row
      → Keeps s (touch_last_used db s row now)
  unfolding touch_last_used
  Keeps-touch s row now found = elim (Bool-cases (recently_used row now)) [
    | inl recent ↦ rw (recent, touch_last_used) (Keeps-refl s)
    | inr due ↦
        let touched : ApiKey = record row { last_used_at = some now } in
        elim (Option-cases (update s touched)) [
          | inl failed ↦ rw (due, touch_last_used, failed) (Keeps-refl s)
          | inr (t, done) ↦
              rw (due, touch_last_used, done)
                (Keeps-update s t row touched found
                  (record { secret_hash = refl; name = refl; scopes = refl; revoked = λ h. h })
                  done)
        ]
  ]

  pub Keeps-insert : (s t : State) (row : ApiKey) → insert s row ≡ some t → Keeps s t
  Keeps-insert s t row h k r e = elim (Bool-cases (row.key_id == k)) [
    | inl this ↦
        let id : row.key_id ≡ k = (eq_iff row.key_id k).0 this in
        let free : select_key s k ≡ none = ap (select_key s) (sym id) ∙ insert_unique s t row h in
        absurd (cc (free, e))
    | inr other ↦ (r, select-insert s t row k h ∙ rw other e, SameCredential-refl r)
  ]

  pub IsMirror-Keeps :
      (cache : Dict CachedKey) (s t : State)
      → Keeps s t
      → IsMirror (record { cache = cache; rows = s })
      → IsMirror (record { cache = cache; rows = t })
  IsMirror-Keeps cache s t keep m k e h =
      let (row, found, same) = m k e h in
      let (row', found', cred) = keep k row found in
      (row', found', Mirrors-SameCredential cred same)

-- Reading the cache only drops entries.
pub get-cached :
    (cache : Dict CachedKey) (key_id k : String) (now : ℕ) (e : CachedKey)
    → Dict.get (cached cache key_id now).1 k ≡ some e
    → Dict.get cache k ≡ some e
unfolding cached
get-cached cache key_id k now e h = ground (arith, get-pop cache key_id k)

-- A hit is an entry that has not expired.
pub cached_hit :
    (cache : Dict CachedKey) (key_id : String) (now : ℕ) (e : CachedKey)
    → (cached cache key_id now).0 ≡ some e
    → (Dict.get cache key_id ≡ some e) × (now < e.expires_at)
unfolding cached
cached_hit cache key_id now e h = ground arith

-- The entry of a verified row mirrors it, and the others stay.
pub get-remember :
    (settings : Settings) (clocks : Clocks) (key_id : String) (row : ApiKey)
    (cache : Dict CachedKey) (k : String) (e : CachedKey)
    → Dict.get (remember settings clocks key_id row cache) k ≡ some e
    → (Dict.get cache k ≡ some e)
      ⊎ ((key_id ≡ k) × Mirrors row e × (e.expires_at ≡ clocks.store + settings.auth_cache_seconds))
unfolding remember
get-remember settings clocks key_id row cache k e h =
    let entry : CachedKey = record {
      secret_hash = row.secret_hash;
      name = row.name;
      scopes = row.scopes;
      expires_at = clocks.store + settings.auth_cache_seconds;
    } in
    elim (Bool-cases (key_id == k)) [
      | inl this ↦ elim (Bool-cases (ltb 0 settings.auth_cache_seconds)) [
        | inl on ↦
            let stored : entry ≡ e = ground (arith, get-put cache key_id k entry) in
            inr (
              (eq_iff key_id k).0 this,
              record {
                secret_hash = ap (λ x. x.secret_hash) (sym stored);
                name = ap (λ x. x.name) (sym stored);
                scopes = ap (λ x. x.scopes) (sym stored);
              },
              ap (λ x. x.expires_at) (sym stored),
            )
        | inr off ↦ inl (ground arith)
      ]
      | inr other ↦ inl (ground (arith, get-put cache key_id k entry))
    ]

module _ (db : KeyStore) (sha256 : String → String) (settings : Settings) (clocks : Clocks) where
  open db use {State, select_key, select-key_id}

  -- What an accepted key proves: the row of its key id holds the digest of its secret, and the
  -- principal has that row's name and scopes.
  abbrev pub IsVouched : AuthState State → String → String → Principal → Type 0
  IsVouched st key_id secret p =
      (row : ApiKey) × (select_key st.rows key_id ≡ some row)
      × (row.secret_hash ≡ sha256 secret)
      × (p ≡ row_principal row)

  from_database-IsVouched :
      (st : AuthState State) (key_id secret : String) (p : Principal)
      → (from_database db sha256 settings clocks key_id secret st).0 ≡ some p
      → IsVouched st key_id secret p
  unfolding from_database
  from_database-IsVouched st key_id secret p h = elim (Option-cases (select_key st.rows key_id)) [
    | inl e ↦ absurd (ground arith)
    | inr (row, e) ↦ (row, e, ground (arith, eq_iff row.secret_hash (sha256 secret)), ground arith)
  ]

  from_cache-IsVouched :
      (st : AuthState State) (key_id secret : String) (p : Principal)
      → IsMirror db st
      → (from_cache db sha256 settings clocks key_id secret st).0 ≡ some p
      → IsVouched st key_id secret p
  unfolding from_cache
  from_cache-IsVouched st key_id secret p m h =
      elim (Option-cases (cached st.cache key_id clocks.read).0) [
        | inl miss ↦
            from_database-IsVouched (record st { cache = (cached st.cache key_id clocks.read).1 })
              key_id secret p (ground arith)
        | inr (e, hit) ↦
            let (row, found, same) = m key_id e (cached_hit st.cache key_id clocks.read e hit).0 in
            let id : row.key_id ≡ key_id = select-key_id st.rows key_id row found in
            let digest : e.secret_hash ≡ sha256 secret =
              ground (arith, eq_iff e.secret_hash (sha256 secret)) in
            let who : entry_principal key_id e ≡ p = ground arith in
            (row, found, sym same.secret_hash ∙ digest, cc (who, id, same.name, same.scopes))
      ]

  pub authenticate-IsVouched :
      (st : AuthState State) (full_key : String) (p : Principal)
      → IsMirror db st
      → (authenticate db sha256 settings clocks st full_key).0 ≡ some p
      → ((is_bootstrap settings full_key ≡ true) × (p ≡ bootstrap_principal))
        ⊎ ((key_id : String) × (secret : String) × (split_key full_key ≡ some (key_id, secret))
            × IsVouched st key_id secret p)
  unfolding authenticate
  authenticate-IsVouched st full_key p m h = elim (Option-cases (split_key full_key)) [
    | inl e ↦ absurd (ground arith)
    | inr ((key_id, secret), e) ↦ elim (Bool-cases (is_bootstrap settings full_key)) [
      | inl b ↦ inl (b, ground arith)
      | inr b ↦ inr (key_id, secret, e, from_cache-IsVouched st key_id secret p m (ground arith))
    ]
  ]
