-- ===== src/Tests/Auth.antt =====
-- Runs of ripcord/auth.py on a table that is a list of rows, the newest first, with a digest that
-- leaves its text as it is.
use ripcord.Prelude.{
  ℕ, String, ◌≡◌, refl, ◌∙◌, ap, true, false, ◌⊎◌, inl, inr, Option, none, some, List, [], ◌∷◌,
  arith, ◌==◌, eq_iff, is_some, sym, Bool-cases, if◌then◌else◌,
}
use ripcord.Prelude.Dict
use ripcord.Prelude.Dict.{Dict}
use ripcord.Auth.Scopes.{Principal, has, effective_scopes, add_implied, implied}
use ripcord.Auth.Key.{
  format_key, generate_key, split_once, split_three, check_parts, split_key, is_hex, is_empty_text,
}
use ripcord.Auth.Store.{ApiKey, KeyStore}
use ripcord.Auth.Verify.{
  Settings, CachedKey, Clocks, AuthState, invalidate_key_cache, cached, recently_used, is_bootstrap,
  bootstrap_principal, remember, touch_last_used, revoke_key, create_key, from_database, from_cache,
  authenticate,
}
use ripcord.Auth.Guard.{Request, extract_credential, bearer_value, require}
use ripcord.Auth.KeyFormat
use ripcord.Auth.Sound.{IsVouched, Keeps, Keeps-update}
use ripcord.Auth.Mirror
use ripcord.Auth.Mirror.{Step, Reach, here, next, verify, late}
use ripcord.Auth.Revoke
use ripcord.Auth.Window

unfoldable pub select_row : List ApiKey → String → Option ApiKey
select_row [] k = none
select_row (row ∷ rows) k = if row.key_id == k then some row else select_row rows k

unfoldable pub insert_row : List ApiKey → ApiKey → Option (List ApiKey)
unfolding select_row
insert_row rows row = if is_some (select_row rows row.key_id) then none else some (row ∷ rows)

pub update_row : List ApiKey → ApiKey → Option (List ApiKey)
update_row rows row = some (row ∷ rows)

pub select_row-key_id :
    (s : List ApiKey) (k : String) (row : ApiKey) → select_row s k ≡ some row → row.key_id ≡ k
unfolding select_row
select_row-key_id [] k row h = absurd (cc)
select_row-key_id (r ∷ s) k row h = elim (Bool-cases (r.key_id == k)) [
  | inl this ↦
      let same : r ≡ row = ground arith in
      ap (λ (x : ApiKey). x.key_id) (sym same) ∙ (eq_iff r.key_id k).0 this
  | inr later ↦ select_row-key_id s k row (ground arith)
]

pub select_row-insert :
    (s t : List ApiKey) (row : ApiKey) (k : String)
    → insert_row s row ≡ some t
    → select_row t k ≡ (if row.key_id == k then some row else select_row s k)
unfolding insert_row select_row
select_row-insert s t row k h = ground arith

pub insert_row_unique :
    (s t : List ApiKey) (row : ApiKey) → insert_row s row ≡ some t → select_row s row.key_id ≡ none
unfolding insert_row
insert_row_unique s t row h = ground arith

pub select_row-update :
    (s t : List ApiKey) (old row : ApiKey) (k : String)
    → select_row s row.key_id ≡ some old
    → update_row s row ≡ some t
    → select_row t k ≡ (if row.key_id == k then some row else select_row s k)
unfolding update_row select_row
select_row-update s t old row k found h = ground arith

abbrev pub keys_table : KeyStore
keys_table = record {
  State = List ApiKey;
  select_key = select_row;
  select_all = λ s. s;
  insert = insert_row;
  update = update_row;
  select-key_id = select_row-key_id;
  select-insert = select_row-insert;
  insert_unique = insert_row_unique;
  select-update = select_row-update;
}

program : Unit {0}
unfolding Dict.get Dict.put Dict.pop select_row insert_row update_row implied add_implied
    effective_scopes has format_key generate_key split_once split_three check_parts split_key
    invalidate_key_cache cached recently_used is_bootstrap remember touch_last_used revoke_key
    create_key from_database from_cache authenticate bearer_value extract_credential require
program = tt

abbrev pub digest : String → String
digest s = s

abbrev pub settings : Settings
settings = record {
  auth_enabled = true;
  auth_cache_seconds = 30;
  bootstrap_admin_key = some "rpc_00_boot";
}

abbrev pub clocks : ℕ → Clocks
clocks t = record { read = t; store = t; utc = t }

abbrev row : ApiKey
row = record {
  key_id = "ab12";
  secret_hash = "s3_cret";
  name = "checkout";
  scopes = "sdk" ∷ [];
  created_at = 1;
  last_used_at = none;
  revoked_at = none;
}

abbrev revoked : ApiKey
revoked = record row { revoked_at = some 50 }

abbrev key_text : String
key_text = "rpc_ab12_s3_cret"

abbrev pub fresh : AuthState (List ApiKey)
fresh = record { cache = []; rows = row ∷ [] }

abbrev sdk_client : Principal
sdk_client = record { name = "checkout"; scopes = "sdk" ∷ []; key_id = some "ab12" }

-- Accepted at time 10, which caches it.
used : AuthState (List ApiKey)
used = (authenticate keys_table digest settings (clocks 10) fresh key_text).1

accepted : (authenticate keys_table digest settings (clocks 10) fresh key_text).0 ≡ some sdk_client
unfolding program
accepted = refl

split_key-inverse_example :
    (key_text ≡ format_key "ab12" "s3_cret")
    × (is_hex "ab12" ≡ true)
    × (is_empty_text "ab12" ≡ false)
    × (is_empty_text "s3_cret" ≡ false)
unfolding program
split_key-inverse_example = KeyFormat.split_key-inverse key_text "ab12" "s3_cret" refl

-- On the cached entry too.
authenticate_sound_example :
    ((is_bootstrap settings key_text ≡ true) × (sdk_client ≡ bootstrap_principal))
    ⊎ ((key_id : String) × (secret : String) × (split_key key_text ≡ some (key_id, secret))
        × IsVouched keys_table digest settings (clocks 20) used key_id secret sdk_client)
unfolding program used
authenticate_sound_example =
    Mirror.authenticate_sound keys_table digest settings (clocks 20) (row ∷ []) used key_text
      sdk_client (next here (verify (clocks 10) fresh key_text)) refl

revoke_key_refused_example :
    (authenticate keys_table digest settings
      (clocks 20)
      (revoke_key keys_table fresh "ab12" 50).1
      key_text).0
    ≡ none
unfolding program
revoke_key_refused_example =
    Revoke.revoke_key_refused keys_table digest settings (clocks 20) fresh key_text "ab12" "s3_cret"
      row revoked 50 refl refl refl refl refl

-- The key is revoked by another process, after this one has cached it.
abbrev seen_elsewhere : AuthState (List ApiKey)
seen_elsewhere = record used { rows = revoked ∷ used.rows }

-- A request that read the row before stores its entry only now.
abbrev stored_late : AuthState (List ApiKey)
stored_late = record seen_elsewhere {
  cache =
      (from_database keys_table digest settings (clocks 10) "ab12" "s3_cret"
        (record seen_elsewhere { rows = used.rows })).1.cache;
}

revoked-Keeps : Keeps keys_table used.rows (revoked ∷ used.rows)
unfolding program used
revoked-Keeps =
    Keeps-update keys_table used.rows (revoked ∷ used.rows) (record row { last_used_at = some 10 })
      revoked refl (record { secret_hash = refl; name = refl; scopes = refl; revoked = λ _. refl })
      refl

revocation_window_example :
    (authenticate keys_table digest settings (clocks 40) stored_late key_text).0 ≡ none
unfolding program used
revocation_window_example =
    Window.revocation_window keys_table digest settings 10 used stored_late (revoked ∷ used.rows)
      (clocks 40) key_text "ab12" "s3_cret" revoked
      (Window.ReachBefore.step (Window.ReachBefore.start (row ∷ []))
        (verify (clocks 10) fresh key_text) (omega arith))
      revoked-Keeps refl refl
      (Window.ReachAfter.then_step Window.ReachAfter.at_start
        (late (clocks 10) used.rows seen_elsewhere "ab12" "s3_cret" revoked-Keeps)
        (inl (omega arith)))
      refl refl (omega arith)

abbrev request : Request
request = record {
  authorization = some "Bearer rpc_ab12_s3_cret";
  x_api_key = none;
  query_api_key = none;
}

abbrev entry : CachedKey
entry = record { secret_hash = "s3_cret"; name = "checkout"; scopes = "sdk" ∷ []; expires_at = 40 }

authenticate_caches_example :
    (Dict.get fresh.cache "ab12" ≡ some entry)
    ⊎ ((r : ApiKey) × (keys_table.select_key fresh.rows "ab12" ≡ some r)
        × (is_some r.revoked_at ≡ false)
        × (is_some (authenticate keys_table digest settings (clocks 10) fresh key_text).0 ≡ true)
        × (entry.expires_at ≡ 40))
unfolding program
authenticate_caches_example =
    Revoke.authenticate_caches keys_table digest settings (clocks 10) fresh key_text "ab12" entry
      refl
