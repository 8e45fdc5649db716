-- ===== src/Auth/Window.antt =====
-- ripcord/auth.py: the time for which a process that did not handle a revocation may miss it.
use ripcord.Prelude.{
  ℕ, ◌+◌, ◌≤◌, String, ◌≡◌, ◌⊎◌, ap, ◌∙◌, sym, true, false, inl, inr, none, some, [], arith,
  is_some,
}
use mathlib.Core.Bool.{false≢true}
use native.Mathlib.Nat.{le_trans}
use ripcord.Prelude.Dict
use ripcord.Prelude.Dict.{Dict, get-pop, get-empty}
use ripcord.Auth.Key.{split_key}
use ripcord.Auth.Store.{ApiKey, KeyStore}
use ripcord.Auth.Verify.{Settings, CachedKey, Clocks, AuthState, is_bootstrap, authenticate}
use ripcord.Auth.Sound.{Keeps, Keeps-refl, get-cached}
use ripcord.Auth.Mirror.{Step, verify, look, late, create, revoke, others}
use ripcord.Auth.Revoke.{
  authenticate_caches, from_database_caches, authenticate-Keeps, revoked_refused,
}
use ripcord.Auth.Kept.{create_key-Keeps, revoke_key-Keeps, get-revoke_key, get-create_key}

module _ (db : KeyStore) (sha256 : String → String) (settings : Settings) where
  open db use {State, select_key}

  abbrev Before : ℕ → {st st' : AuthState State} → Step db sha256 settings st st' → Type 0
  Before t (verify clocks st full_key) = clocks.store ≤ t
  Before t (late clocks read st key_id secret keep) = clocks.store ≤ t
  Before t _ = Unit {0}

  -- Steps from an empty cache, none of which stores an entry after `t`.
  pub data ReachBefore (t : ℕ) : AuthState State → Type 0 where
    start : (rows : State) → ReachBefore t (record { cache = []; rows = rows })
    step :
        {st st' : AuthState State}
        → ReachBefore t st
        → (s : Step db sha256 settings st st') → Before t s
        → ReachBefore t st'

  -- Every entry of the cache expires by `deadline`.
  abbrev ExpiresBy : ℕ → AuthState State → Type 0
  ExpiresBy deadline st =
      (k : String) (e : CachedKey) → Dict.get st.cache k ≡ some e → e.expires_at ≤ deadline

  ReachBefore-ExpiresBy :
      (t : ℕ) {st : AuthState State}
      → ReachBefore t st
      → ExpiresBy (t + settings.auth_cache_seconds) st
  ReachBefore-ExpiresBy t (start rows) k e h = absurd (cc (get-empty {V = CachedKey} k, h))
  ReachBefore-ExpiresBy t (step r (verify clocks st full_key) b) k e h =
      elim (authenticate_caches db sha256 settings clocks st full_key k e h) [
        | inl old ↦ ReachBefore-ExpiresBy t r k e old
        | inr (_, _, _, _, until) ↦ omega arith
      ]
  ReachBefore-ExpiresBy t (step r (look st key_id now) b) k e h =
      ReachBefore-ExpiresBy t r k e (get-cached st.cache key_id k now e h)
  ReachBefore-ExpiresBy t (step r (late clocks read st key_id secret keep) b) k e h =
      elim (from_database_caches db sha256 settings clocks key_id secret (record st { rows = read })
        k e h) [
          | inl old ↦ ReachBefore-ExpiresBy t r k e old
          | inr (_, _, _, _, until) ↦ omega arith
        ]
  ReachBefore-ExpiresBy t (step r (create st name scopes token_hex token_urlsafe now) b) k e h =
      ReachBefore-ExpiresBy t r k e
        (rw (get-create_key db sha256 st name scopes token_hex token_urlsafe now) at h)
  ReachBefore-ExpiresBy t (step r (revoke st key_id now) b) k e h =
      ReachBefore-ExpiresBy t r k e (get-revoke_key db st key_id k now e h)
  ReachBefore-ExpiresBy t (step r (others st rows keep) b) k e h = ReachBefore-ExpiresBy t r k e h

  -- A key is revoked in the table, and whatever the cache has of it expires by `deadline`.
  record IsQuiet (deadline : ℕ) (key_id : String) (st : AuthState State) : Type 0 where
    row : ApiKey
    found : select_key st.rows key_id ≡ some row
    gone : is_some row.revoked_at ≡ true
    entries : (e : CachedKey) → Dict.get st.cache key_id ≡ some e → e.expires_at ≤ deadline

  -- A step that keeps the credentials and caches nothing of a revoked key.
  IsQuiet-keep :
      (deadline : ℕ) (key_id : String) (st st' : AuthState State)
      → Keeps db st.rows st'.rows
      → ((e : CachedKey) → Dict.get st'.cache key_id ≡ some e → Dict.get st.cache key_id ≡ some e)
      → IsQuiet deadline key_id st
      → IsQuiet deadline key_id st'
  IsQuiet-keep deadline key_id st st' keep same q =
      let (row', found', cred) = keep key_id q.row q.found in
      record {
        row = row';
        found = found';
        gone = cred.revoked q.gone;
        entries = λ e h. q.entries e (same e h);
      }

  -- A step that stores nothing after `t` for a row that was read before the key was revoked.
  abbrev HasSeen : ℕ → String → {st st' : AuthState State} → Step db sha256 settings st st' → Type 0
  HasSeen t key_id (late clocks read st k secret keep) =
      (clocks.store ≤ t)
      ⊎ ((row : ApiKey) × (select_key read key_id ≡ some row) × (is_some row.revoked_at ≡ true))
  HasSeen t key_id _ = Unit {0}

  -- Any steps, of which those that store an entry after `t` had seen the revocation.
  pub data ReachAfter (t : ℕ) (key_id : String) (start : AuthState State)
      : AuthState State → Type 0 where
    at_start : ReachAfter t key_id start start
    then_step :
        {st st' : AuthState State}
        → ReachAfter t key_id start st
        → (s : Step db sha256 settings st st') → HasSeen t key_id s
        → ReachAfter t key_id start st'

  Step-IsQuiet :
      (t : ℕ) (key_id : String) {st st' : AuthState State} (s : Step db sha256 settings st st')
      → HasSeen t key_id s
      → IsQuiet (t + settings.auth_cache_seconds) key_id st
      → IsQuiet (t + settings.auth_cache_seconds) key_id st'
  Step-IsQuiet t key_id (verify clocks st full_key) seen q =
      IsQuiet-keep (t + settings.auth_cache_seconds) key_id st _
        (authenticate-Keeps db sha256 settings clocks st full_key)
        (λ e h. elim (authenticate_caches db sha256 settings clocks st full_key key_id e h) [
          | inl old ↦ old
          | inr (row, found, live, _, _) ↦
              let same : q.row ≡ row = cc (q.found, found) in
              absurd (false≢true (sym live ∙ ap (λ r. is_some r.revoked_at) (sym same) ∙ q.gone))
        ])
        q
  Step-IsQuiet t key_id (look st k now) seen q =
      IsQuiet-keep (t + settings.auth_cache_seconds) key_id st _ (Keeps-refl db st.rows)
        (λ e h. get-cached st.cache k key_id now e h) q
  Step-IsQuiet t key_id (late clocks read st k secret keep) seen q = record {
    row = q.row;
    found = q.found;
    gone = q.gone;
    entries = λ e h.
        elim (from_database_caches db sha256 settings clocks k secret (record st { rows = read })
          key_id e h) [
            | inl old ↦ q.entries e old
            | inr (row, found, live, _, until) ↦ elim seen [
              | inl early ↦ omega (arith, early)
              | inr (row', found', gone) ↦
                  let same : row' ≡ row = cc (found', found) in
                  absurd (false≢true (sym live ∙ ap (λ r. is_some r.revoked_at) (sym same) ∙ gone))
            ]
          ];
  }
  Step-IsQuiet t key_id (create st name scopes token_hex token_urlsafe now) seen q =
      IsQuiet-keep (t + settings.auth_cache_seconds) key_id st _
        (create_key-Keeps db sha256 st name scopes token_hex token_urlsafe now)
        (λ e h. rw (get-create_key db sha256 st name scopes token_hex token_urlsafe now) at h) q
  Step-IsQuiet t key_id (revoke st k now) seen q =
      IsQuiet-keep (t + settings.auth_cache_seconds) key_id st _ (revoke_key-Keeps db st k now)
        (λ e h. get-revoke_key db st k key_id now e h) q
  Step-IsQuiet t key_id (others st rows keep) seen q =
      IsQuiet-keep (t + settings.auth_cache_seconds) key_id st _ keep (λ e h. h) q

  ReachAfter-IsQuiet :
      (t : ℕ) (key_id : String) {st st' : AuthState State}
      → ReachAfter t key_id st st'
      → IsQuiet (t + settings.auth_cache_seconds) key_id st
      → IsQuiet (t + settings.auth_cache_seconds) key_id st'
  ReachAfter-IsQuiet t key_id at_start q = q
  ReachAfter-IsQuiet t key_id (then_step r s seen) q =
      Step-IsQuiet t key_id s seen (ReachAfter-IsQuiet t key_id r q)

  -- A key is revoked in the table by another process, and every entry that this one stores after time
  -- `t` comes from a SELECT that saw the revocation. Then, whatever else the process does before and
  -- after, and however the steps of its requests interleave, from `t` plus the configured cache time
  -- on it refuses the key. The bootstrap key is exempt.
  pub revocation_window :
      (t : ℕ) (st st' : AuthState State) (rows : State) (clocks : Clocks)
      (full_key key_id secret : String) (row : ApiKey)
      → ReachBefore t st
      → Keeps db st.rows rows
      → select_key rows key_id ≡ some row
      → is_some row.revoked_at ≡ true
      → ReachAfter t key_id (record st { rows = rows }) st'
      → split_key full_key ≡ some (key_id, secret)
      → is_bootstrap settings full_key ≡ false
      → t + settings.auth_cache_seconds ≤ clocks.read
      → (authenticate db sha256 settings clocks st' full_key).0 ≡ none
  revocation_window t st st' rows clocks full_key key_id secret row before keep found gone after
        split b until =
      let quiet : IsQuiet (t + settings.auth_cache_seconds) key_id (record st { rows = rows }) =
        record {
          row = row;
          found = found;
          gone = gone;
          entries = λ e h. ReachBefore-ExpiresBy t before key_id e h;
        } in
      let q = ReachAfter-IsQuiet t key_id after quiet in
      revoked_refused db sha256 settings clocks st' full_key key_id secret q.row split b q.found
        q.gone (λ e h. le_trans (q.entries e h) until)
