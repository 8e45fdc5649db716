-- ===== src/Auth/Guard.antt =====
-- ripcord/auth.py: `_extract_credential` and the dependency that `require` builds; ripcord/deps.py:
-- the scopes that the routes demand.
--
-- `lower` is applied to ASCII letters: no other character's lower case is a letter of "bearer".
use Prim.Native.Char.{code}
use ripcord.Prelude.{
  ℕ, ◌+◌, String, Bool, true, false, not, ◌&&◌, ◌||◌, Option, none, some, List, [], ◌∷◌, map, eqb,
  leb, select, is_empty, if◌then◌else◌,
}
use ripcord.Auth.Scopes.{
  Principal, has, anonymous, scope_flags_read, scope_flags_write, scope_sdk, scope_admin,
}
use ripcord.Auth.Key.{is_empty_text}
use ripcord.Auth.Store.{KeyStore}
use ripcord.Auth.Verify.{Settings, Clocks, AuthState, Reply, ok, error, authenticate}

-- The parts of a request that hold a credential.
pub record Request : Type 0 where
  pub authorization : Option String
  pub x_api_key : Option String
  pub query_api_key : Option String

-- `header.partition(" ")`, without the separator.
unfoldable pub partition_space : String → String × String
partition_space String.[] = (String.[], String.[])
partition_space (String.◌∷◌ c s) =
    let (head, tail) = partition_space s in
    if eqb (code c) b' ' then (String.[], s) else (String.◌∷◌ c head, tail)

abbrev pub codes : String → List ℕ
codes String.[] = []
codes (String.◌∷◌ c s) = code c ∷ codes s

abbrev pub to_lower : ℕ → ℕ
to_lower c = if leb b'A' c && leb c b'Z' then c + 32 else c

unfoldable pub same_codes : List ℕ → List ℕ → Bool
same_codes [] [] = true
same_codes (c ∷ s) (d ∷ t) = eqb c d && same_codes s t
same_codes _ _ = false

-- `scheme.lower() == "bearer"`
unfoldable pub is_bearer : String → Bool
unfolding same_codes
is_bearer scheme = same_codes (map to_lower (codes scheme)) (codes "bearer")

-- `str.isspace` of one character.
unfoldable pub is_space : ℕ → Bool
is_space c =
    (leb 9 c && leb c 13)
    || (leb 28 c && leb c 32)
    || eqb c 133
    || eqb c 160
    || eqb c 5760
    || (leb 8192 c && leb c 8202)
    || eqb c 8232
    || eqb c 8233
    || eqb c 8239
    || eqb c 8287
    || eqb c 12288

unfoldable pub strip_left : String → String
unfolding is_space
strip_left String.[] = String.[]
strip_left (String.◌∷◌ c s) = if is_space (code c) then strip_left s else String.◌∷◌ c s

unfoldable pub strip_right : String → String
unfolding is_space
strip_right String.[] = String.[]
strip_right (String.◌∷◌ c s) =
    let rest = strip_right s in
    if is_space (code c) && is_empty_text rest then String.[] else String.◌∷◌ c rest

-- `value.strip()`
unfoldable pub strip : String → String
unfolding strip_left strip_right
strip value = strip_right (strip_left value)

-- `if header:`
abbrev pub given : Option String → Bool
given none = false
given (some s) = not (is_empty_text s)

-- The `Authorization` header's key, if it carries one.
unfoldable pub bearer_value : Option String → Option String
unfolding partition_space is_bearer strip
bearer_value none = none
bearer_value (some header) =
    let (scheme, value) = partition_space header in
    if not (is_empty_text header) && (is_bearer scheme && not (is_empty_text value))
    then some (strip value)
    else none

unfoldable pub extract_credential : Request → Bool → Option String
extract_credential request allow_query = elim (bearer_value request.authorization) [
  | some value ↦ some value
  | none ↦
      if given request.x_api_key
      then request.x_api_key
      else if allow_query
      then request.query_api_key
      else none
]

-- `[s for s in required if not principal.has(s)]`
unfoldable pub missing_scopes : Principal → List String → List String
missing_scopes p required = select (λ s. not (has p s)) required

-- The scopes of the typed dependencies.
abbrev pub read_dep : List String
read_dep = scope_flags_read ∷ []

abbrev pub write_dep : List String
write_dep = scope_flags_write ∷ []

abbrev pub sdk_dep : List String
sdk_dep = scope_sdk ∷ []

abbrev pub admin_dep : List String
admin_dep = scope_admin ∷ []

module _ (db : KeyStore) (sha256 : String → String) (settings : Settings) (clocks : Clocks) where
  open db use {State}

  -- 403 for an authenticated caller that lacks a scope, 401 for any other that is turned away.
  unfoldable pub authorize :
      List String → Option Principal × AuthState State → Reply Principal × AuthState State
  authorize required (none, st) = (error 401, st)
  authorize required (some p, st) =
      if is_empty (missing_scopes p required) then (ok p, st) else (error 403, st)

  -- The dependency: the scopes, whether the query string counts, and the request.
  unfoldable pub require :
      List String → Bool → Request → AuthState State → Reply Principal × AuthState State
  require required allow_query request st =
      if not settings.auth_enabled
      then (ok anonymous, st)
      else if not (given (extract_credential request allow_query))
      then (error 401, st)
      else elim (extract_credential request allow_query) [
        | none ↦ (error 401, st)
        | some credential ↦
            authorize required (authenticate db sha256 settings clocks st credential)
      ]
