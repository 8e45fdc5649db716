-- ===== src/App/Commands.antt =====
-- ripcord/cli.py: `mint-bootstrap` and `create-key`. What a command prints is its exit code and, where
-- it shows one, the full key.
use Prim.Native.Char.{code}
use ripcord.Prelude.{
  ℕ, String, not, Option, none, some, List, [], ◌∷◌, eqb, is_empty, if◌then◌else◌,
}
use ripcord.Auth.Key.{generate_key, is_empty_text}
use ripcord.Auth.Guard.{strip}
use ripcord.Auth.Store.{ApiKey, KeyStore}
use ripcord.Auth.Verify.{AuthState, Reply, ok, error, create_key}
use ripcord.Schemas.Keys.{unknown_scopes}

-- The exit code and the key that is shown; `raised` is an exception of the commit.
pub data Exit : Type 0 where
  exits : ℕ → Option String → Exit
  raised : Exit

unfoldable pub mint_bootstrap : (String → String) → String → String → Exit
mint_bootstrap sha256 token_hex token_urlsafe =
    exits 0 (some (generate_key sha256 token_hex token_urlsafe).0)

-- `text.split(",")`
unfoldable pub split_commas : String → List String
split_commas String.[] = String.[] ∷ []
split_commas (String.◌∷◌ c s) =
    let rest = split_commas s in
    if eqb (code c) b','
    then String.[] ∷ rest
    else elim rest [ [] ↦ [] | part ∷ parts ↦ String.◌∷◌ c part ∷ parts ]

-- `[s.strip() for s in scopes.split(",") if s.strip()]`
unfoldable pub strip_all : List String → List String
strip_all [] = []
strip_all (s ∷ parts) =
    let rest = strip_all parts in if not (is_empty_text (strip s)) then strip s ∷ rest else rest

module _ (db : KeyStore) (sha256 : String → String) where
  open db use {State}

  -- The exit that shows a reply of `create_key`.
  abbrev pub exit_of : Reply (String × ApiKey) → Exit
  exit_of (ok (full_key, row)) = exits 0 (some full_key)
  exit_of (error _) = raised

  -- `_create_key`; the process has no cache of keys, and exits.
  unfoldable pub create_key_command :
      AuthState State → String → List String → String → String → ℕ → Exit × AuthState State
  create_key_command st name scopes token_hex token_urlsafe now =
      if not (is_empty (unknown_scopes scopes))
      then (exits 2 none, st)
      else let (reply, after) = create_key db sha256 st name scopes token_hex token_urlsafe now in
        (exit_of reply, after)

  -- `main` with `create-key`
  unfoldable pub main_create_key :
      AuthState State → String → String → String → String → ℕ → Exit × AuthState State
  unfolding strip_all split_commas
  main_create_key st name scopes token_hex token_urlsafe now =
      create_key_command st name (strip_all (split_commas scopes)) token_hex token_urlsafe now
