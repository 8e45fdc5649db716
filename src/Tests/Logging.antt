-- ===== src/Tests/Logging.antt =====
-- Runs of the redaction of a log line.
use ripcord.Prelude.{String, ◌≡◌, refl, false, [], ◌∷◌}
use ripcord.Auth.Guard.{is_space}
use ripcord.Logging.{
  is_value, parameter, glue, starts_match, redact_from, redact, text, other, filter,
}
use ripcord.Logging.Secrecy
use ripcord.Logging.Interference
use ripcord.Logging.Redaction.{exposes}

abbrev line : String
line = "GET /stream?api_key=rpc_ab12_s3_cret&x=1 HTTP/1.1"

redacted : redact line ≡ "GET /stream?api_key=[redacted]&x=1 HTTP/1.1"
unfolding redact redact_from starts_match is_value is_space
redacted = refl

filtered :
    filter (record { msg = text "%s %d"; args = text "a?api_key=k" ∷ other 200 ∷ [] })
    ≡ record { msg = text "%s %d"; args = text "a?api_key=[redacted]" ∷ other 200 ∷ [] }
unfolding filter redact redact_from starts_match is_value is_space
filtered = refl

-- A name that is spelled with an escape is not the pattern's.
escaped : redact "GET /stream?api%5Fkey=secret" ≡ "GET /stream?api%5Fkey=secret"
unfolding redact redact_from starts_match is_value is_space
escaped = refl

redact_lem_example : (exposes (redact line) ≡ false) × (redact (redact line) ≡ redact line)
redact_lem_example = Secrecy.redact_lem line

redact-independent_example :
    redact (glue "GET /stream?" (glue parameter (glue "rpc_ab12_s3_cret" "&x=1")))
    ≡ redact (glue "GET /stream?" (glue parameter (glue "other" "&x=1")))
unfolding is_value is_space
redact-independent_example =
    Interference.redact-independent "GET /stream?" "rpc_ab12_s3_cret" "other" "&x=1" refl refl refl
      refl
