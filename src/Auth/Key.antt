-- ===== src/Auth/Key.antt =====
-- ripcord/auth.py: `generate_key`, `hash_secret`, `split_key`. SHA-256 and the two random tokens are
-- parameters.
use Prim.Native.Char.{code}
use Prim.Native.String.{◌++◌}
use ripcord.Prelude.{
  ℕ, String, Bool, true, false, not, ◌&&◌, ◌||◌, Option, none, some, ◌==◌, leb, eqb, if◌then◌else◌,
}

abbrev pub key_prefix : String
key_prefix = "rpc"

-- `f"{KEY_PREFIX}_{key_id}_{secret}"`
unfoldable pub format_key : String → String → String
format_key key_id secret = key_prefix ++ ("_" ++ (key_id ++ ("_" ++ secret)))

-- `generate_key`, given what `token_hex` and `token_urlsafe` return.
unfoldable pub generate_key : (String → String) → String → String → String × String × String
generate_key sha256 token_hex token_urlsafe =
    (format_key token_hex token_urlsafe, token_hex, sha256 token_urlsafe)

-- A text at its first underscore, if it has one.
unfoldable pub split_once : String → Option (String × String)
split_once String.[] = none
split_once (String.◌∷◌ c s) =
    let rest = split_once s in
    if eqb (code c) b'_'
    then some (String.[], s)
    else elim rest [ none ↦ none | some (head, tail) ↦ some (String.◌∷◌ c head, tail) ]

-- `full_key.split("_", 2)`, where it has three parts.
unfoldable pub split_three : String → Option (String × String × String)
unfolding split_once
split_three full_key = elim (split_once full_key) [
  | none ↦ none
  | some (first, rest) ↦ elim (split_once rest) [
    | none ↦ none
    | some (second, third) ↦ some (first, second, third)
  ]
]

abbrev pub is_empty_text : String → Bool
is_empty_text String.[] = true
is_empty_text (String.◌∷◌ c s) = false

-- `c in "0123456789abcdef"`
abbrev pub is_hex_digit : ℕ → Bool
is_hex_digit c = (leb b'0' c && leb c b'9') || (leb b'a' c && leb c b'f')

-- No character outside the hexadecimal digits.
abbrev pub is_hex : String → Bool
is_hex String.[] = true
is_hex (String.◌∷◌ c s) = is_hex_digit (code c) && is_hex s

-- The tests of `split_key` on the three parts.
unfoldable pub check_parts : String → String → String → Option (String × String)
check_parts prefix key_id secret =
    if not (prefix == key_prefix)
    then none
    else if is_empty_text key_id || is_empty_text secret
    then none
    else if not (is_hex key_id)
    then none
    else some (key_id, secret)

unfoldable pub split_key : String → Option (String × String)
unfolding split_three check_parts
split_key full_key = elim (split_three full_key) [
  | none ↦ none
  | some (prefix, key_id, secret) ↦ check_parts prefix key_id secret
]
