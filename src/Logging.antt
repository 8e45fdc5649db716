-- ===== src/Logging.antt =====
-- ripcord/logging_config.py: `RedactQueryCredentials`, the filter of the access log.
--
-- The search for the pattern `(api_key=)[^&\s"']+` is a machine that reads a text once: a match starts
-- where the name stands with a character of a value behind it, and goes on to the first character
-- that a value does not hold.
use Prim.Native.Char.{code}
use ripcord.Prelude.{
  ℕ, zero, suc, String, Bool, true, false, not, ◌&&◌, ◌||◌, List, [], ◌∷◌, map, eqb, if◌then◌else◌,
}
use ripcord.Auth.Guard.{is_space}
pub mod Redaction
pub mod Secrecy
pub mod Interference

-- `[^&\s"']`
unfoldable pub is_value : ℕ → Bool
is_value c = not (eqb c b'&' || is_space c || eqb c 34 || eqb c 39)

abbrev pub parameter : String
parameter = "api_key="

abbrev pub replacement : String
replacement = "api_key=[redacted]"

-- One text after another.
abbrev pub glue : String → String → String
glue String.[] t = t
glue (String.◌∷◌ c s) t = String.◌∷◌ c (glue s t)

-- Whether the text has at its front what is left of the name, and then a character of a value.
unfoldable pub starts_match : String → String → Bool
starts_match name String.[] = false
starts_match String.[] (String.◌∷◌ c s) = is_value (code c)
starts_match (String.◌∷◌ p name) (String.◌∷◌ c s) = eqb (code p) (code c) && starts_match name s

-- Outside a match, or inside one with so many characters of the name to come.
pub data Mode : Type 0 where
  copying : Mode
  in_match : ℕ → Mode

unfoldable pub redact_from : Mode → String → String
unfolding is_value starts_match
redact_from mode String.[] = String.[]
redact_from copying (String.◌∷◌ c s) = elim (starts_match parameter (String.◌∷◌ c s)) [
  | true ↦ glue replacement (redact_from (in_match 7) s)
  | false ↦ String.◌∷◌ c (redact_from copying s)
]
redact_from (in_match zero) (String.◌∷◌ c s) = elim (is_value (code c)) [
  | true ↦ redact_from (in_match zero) s
  | false ↦ String.◌∷◌ c (redact_from copying s)
]
redact_from (in_match (suc n)) (String.◌∷◌ c s) = redact_from (in_match n) s

-- `_PATTERN.sub(r"\1[redacted]", a)`
unfoldable pub redact : String → String
unfolding redact_from
redact s = redact_from copying s

-- An argument of a log record: a text, or another object, by its number.
pub data Arg : Type 0 where
  text : String → Arg
  other : ℕ → Arg

pub record LogRecord : Type 0 where
  pub msg : Arg
  pub args : List Arg

abbrev pub redact_arg : Arg → Arg
unfolding redact
redact_arg (text a) = text (redact a)
redact_arg (other n) = other n

-- `filter`: the record that it leaves; it never drops one.
unfoldable pub filter : LogRecord → LogRecord
unfolding redact
filter r = record { msg = redact_arg r.msg; args = map redact_arg r.args }
