-- ===== src/App/Accepted.antt =====
-- ripcord/cli.py beside ripcord/auth.py: a key that the command line prints, at a server on its table.
use mathlib.Core.Path.{subst}
use ripcord.Prelude.{
  ℕ, String, ◌≡◌, refl, ap, ◌∙◌, sym, true, false, ◌⊎◌, inl, inr, some, List, [], ◌∷◌, arith,
  is_some, is_empty, is_in, all, Bool-cases,
}
use ripcord.Auth.Scopes.{all_scopes}
use ripcord.Auth.Key.{split_key, is_hex, is_empty_text}
use ripcord.Auth.KeyFormat.{split-generate}
use ripcord.Auth.Store.{ApiKey, KeyStore}
use ripcord.Auth.Verify.{
  Settings, Clocks, AuthState, Reply, ok, error, is_bootstrap, create_key, authenticate,
}
use ripcord.Auth.Sound.{IsMirror, Keeps}
use ripcord.Auth.Mirror.{others, Reach, next, Reach-IsMirror, IsMirror-empty}
use ripcord.Auth.Kept.{create_key-Keeps}
use ripcord.Auth.Accept.{Reach-Keeps, authenticate_live, create_key-row}
use ripcord.Schemas.Keys.{unknown_scopes}
use ripcord.App.Commands.{
  exits, exit_of, strip_all, split_commas, create_key_command, main_create_key,
}

known-unknown :
    (scopes : List String)
    → is_empty (unknown_scopes scopes) ≡ true
    → all (λ s. is_in s all_scopes) scopes ≡ true
unfolding unknown_scopes
known-unknown [] h = refl
known-unknown (s ∷ scopes) h = ground (arith, known-unknown scopes)

exit_of-ok :
    (db : KeyStore) (sha256 : String → String) (r : Reply (String × ApiKey)) (full_key : String)
    → exit_of db sha256 r ≡ exits 0 (some full_key)
    → (row : ApiKey) × (r ≡ ok (full_key, row))
exit_of-ok db sha256 (ok (key, row)) full_key h =
    (row, (let same : key ≡ full_key = cc in ap (λ k. ok (k, row)) same))
exit_of-ok db sha256 (error n) full_key h = absurd (cc)

module _ (db : KeyStore) (sha256 : String → String) where
  open db use {State, select_key}

  -- A command that printed a key minted it, with scopes that exist.
  command-minted :
      (st : AuthState State) (name : String) (scopes : List String)
      (token_hex token_urlsafe : String) (now : ℕ) (full_key : String)
      → (create_key_command db sha256 st name scopes token_hex token_urlsafe now).0
        ≡ exits 0 (some full_key)
      → (row : ApiKey) × ((create_key db sha256 st name scopes token_hex token_urlsafe now).0
          ≡ ok (full_key, row))
        × (all (λ s. is_in s all_scopes) scopes ≡ true)
        × ((create_key_command db sha256 st name scopes token_hex token_urlsafe now).1
            ≡ (create_key db sha256 st name scopes token_hex token_urlsafe now).1)
  unfolding create_key_command
  command-minted st name scopes token_hex token_urlsafe now full_key h =
      elim (Bool-cases (is_empty (unknown_scopes scopes))) [
        | inr no_such ↦ absurd (ground arith)
        | inl known ↦
            let (row, minted) =
              exit_of-ok db sha256
                (create_key db sha256 st name scopes token_hex token_urlsafe now).0 full_key
                (ground arith) in
            (row, minted, known-unknown scopes known, ground arith)
      ]

  -- The table after the command, beside the one that it found.
  abbrev pub printed :
      (rows : State) (name scopes token_hex token_urlsafe : String) (now : ℕ) → AuthState State
  printed rows name scopes token_hex token_urlsafe now =
      (main_create_key db sha256 (record { cache = []; rows = rows }) name scopes token_hex
        token_urlsafe now).1

module _ (db : KeyStore) (sha256 : String → String) (settings : Settings) where
  open db use {State, select_key, select-key_id}

  -- A key that the command line prints, with a hexadecimal id and tokens that have a character, has only
  -- scopes that exist. A server that was running on the table before accepts the key, with the
  -- name and the scopes of the command, in every later state of its process in which the key's row
  -- is not revoked, unless the key equals the bootstrap key.
  pub main_create_key_accepted :
      (clocks : Clocks) (rows : State) (st st' : AuthState State)
      (name scopes token_hex token_urlsafe : String) (now : ℕ) (full_key : String)
      → Reach db sha256 settings (record { cache = []; rows = rows }) st
      → is_hex token_hex ≡ true
      → is_empty_text token_hex ≡ false
      → is_empty_text token_urlsafe ≡ false
      → (main_create_key db sha256
          (record { cache = []; rows = st.rows })
          name
          scopes
          token_hex
          token_urlsafe
          now).0
        ≡ exits 0 (some full_key)
      → Reach db sha256 settings
          (record {
            cache = st.cache;
            rows = (printed db sha256 st.rows name scopes token_hex token_urlsafe now).rows;
          })
          st'
      → is_bootstrap settings full_key ≡ false
      → (all (λ s. is_in s all_scopes) (strip_all (split_commas scopes)) ≡ true)
        × ((row : ApiKey) × (select_key st'.rows token_hex ≡ some row)
            × ((is_some row.revoked_at ≡ true)
                ⊎ ((authenticate db sha256 settings clocks st' full_key).0
                    ≡ some (record {
                      name = name;
                      scopes = strip_all (split_commas scopes);
                      key_id = some token_hex;
                    }))))
  unfolding main_create_key
  main_create_key_accepted clocks rows st st' name scopes token_hex token_urlsafe now full_key r hex
        some_hex some_secret h later b =
      let parts = strip_all (split_commas scopes) in
      let cli : AuthState State = record { cache = []; rows = st.rows } in
      let (minted, made, known, left) =
        command-minted db sha256 cli name parts token_hex token_urlsafe now full_key h in
      let (key, id, its_name, its_scopes, digest, there) =
        create_key-row db sha256 settings cli name parts token_hex token_urlsafe now full_key minted
          made in
      let table : (create_key db sha256 cli name parts token_hex token_urlsafe now).1.rows
          ≡ (printed db sha256 st.rows name scopes token_hex token_urlsafe now).rows =
        ap (λ (x : AuthState State). x.rows) (sym left) in
      let keeps : Keeps db st.rows
          (printed db sha256 st.rows name scopes token_hex token_urlsafe now).rows =
        subst (Keeps db st.rows) table
          (create_key-Keeps db sha256 cli name parts token_hex token_urlsafe now) in
      let here_now : select_key
            (printed db sha256 st.rows name scopes token_hex token_urlsafe now).rows token_hex
          ≡ some minted =
        ap (λ t. select_key t token_hex) (sym table) ∙ there in
      let (row, found, same) = Reach-Keeps db sha256 settings later token_hex minted here_now in
      let mirror : IsMirror db st' =
        Reach-IsMirror db sha256 settings
          (Reach-IsMirror db sha256 settings (IsMirror-empty db sha256 settings rows)
            (next r (others st _ keeps)))
          later in
      let split : split_key full_key ≡ some (token_hex, token_urlsafe) =
        ap split_key key ∙ split-generate sha256 token_hex token_urlsafe hex some_hex some_secret in
      (
        known,
        (
          row,
          found,
          elim (Bool-cases (is_some row.revoked_at)) [
            | inl gone ↦ inl gone
            | inr live ↦ inr (
                authenticate_live db sha256 settings clocks st' full_key token_hex token_urlsafe row
                  mirror split b found live (same.secret_hash ∙ digest)
                ∙ cc (
                  same.name,
                  same.scopes,
                  its_name,
                  its_scopes,
                  select-key_id st'.rows token_hex row found,
                ))
          ],
        ),
      )
