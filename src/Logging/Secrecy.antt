-- ===== src/Logging/Secrecy.antt =====
-- ripcord/logging_config.py: what the redaction keeps of a text, and that it keeps nothing of the
-- credential.
use Prim.Native.Char.{Char, code}
use text.Mathlib.TextEquality.{Char-path}
use ripcord.Prelude.{
  ℕ, zero, suc, ◌+◌, ◌≤◌, String, ◌≡◌, refl, ap, ap₂, sym, Bool, true, false, ◌&&◌, Bool-cases, inl,
  inr, arith,
}
use ripcord.Logging.{
  is_value, parameter, glue, starts_match, copying, in_match, redact_from, redact,
}
use ripcord.Logging.Redaction.{
  exposes, is_replaced, copying-match, copying-miss, code-match, exposes-redact,
}

-- Characters of a value alone.
abbrev pub is_credential : String → Bool
is_credential String.[] = true
is_credential (String.◌∷◌ c s) = is_value (code c) && is_credential s

abbrev pub text_length : String → ℕ
text_length String.[] = 0
text_length (String.◌∷◌ c s) = 1 + text_length s

-- What the redaction does with a text that exposes nothing: it gives it back, from its start and from
-- the middle of a placeholder.
pub record IsFixed (s : String) : Type 0 where
  pub outside : redact_from copying s ≡ s
  pub inside :
      (n : ℕ) (r : String)
      → is_replaced r s ≡ true
      → is_credential r ≡ true
      → n ≤ text_length r
      → glue r (redact_from (in_match n) s) ≡ s

inside_cons :
    (c : Char) (s : String) (n : ℕ) (r : String)
    → IsFixed s
    → is_replaced r (String.◌∷◌ c s) ≡ true
    → is_credential r ≡ true
    → n ≤ text_length r
    → glue r (redact_from (in_match n) (String.◌∷◌ c s)) ≡ String.◌∷◌ c s
unfolding redact_from
inside_cons c s zero String.[] fixed over value few =
    let out : is_value (code c) ≡ false = ground arith in
    rw (redact_from, out) (ap (String.◌∷◌ c) fixed.outside)
inside_cons c s zero (String.◌∷◌ p r) fixed over value few =
    let same : p ≡ c = Char-path p c (ground arith) in
    let held : is_value (code c) ≡ true = rw (sym same) (ground arith) in
    rw (same, redact_from, held)
      (ap (String.◌∷◌ c) (fixed.inside 0 r (ground arith) (ground arith) (omega arith)))
inside_cons c s (suc n) String.[] fixed over value few = absurd (omega arith)
inside_cons c s (suc n) (String.◌∷◌ p r) fixed over value few =
    let same : p ≡ c = Char-path p c (ground arith) in
    rw same (ap (String.◌∷◌ c) (fixed.inside n r (ground arith) (ground arith) (omega arith)))

inside_nil :
    (n : ℕ) (r : String)
    → is_replaced r String.[] ≡ true
    → is_credential r ≡ true
    → n ≤ text_length r
    → glue r (redact_from (in_match n) String.[]) ≡ String.[]
unfolding redact_from
inside_nil n String.[] over value few = refl
inside_nil n (String.◌∷◌ p r) over value few = absurd (cc)

placeholder-value : is_credential "pi_key=[redacted]" ≡ true
unfolding is_value ripcord.Auth.Guard.is_space
placeholder-value = refl

outside_cons :
    (c : Char) (s : String)
    → IsFixed s
    → exposes (String.◌∷◌ c s) ≡ false
    → redact_from copying (String.◌∷◌ c s) ≡ String.◌∷◌ c s
outside_cons c s fixed h = elim (Bool-cases (starts_match parameter (String.◌∷◌ c s))) [
  | inl e ↦
      let same : "a" ≡ c = Char-path "a" c (sym (code-match c s e)) in
      let behind : is_replaced "pi_key=[redacted]" s ≡ true = ground arith in
      rw (copying-match c s e) (
        ap₂ String.◌∷◌ same
          (fixed.inside 7 "pi_key=[redacted]" behind placeholder-value (omega arith)))
  | inr e ↦ rw (copying-miss c s e) (ap (String.◌∷◌ c) fixed.outside)
]

unexposed-IsFixed : (s : String) → exposes s ≡ false → IsFixed s
unfolding redact_from
unexposed-IsFixed String.[] h = record { outside = refl; inside = inside_nil }
unexposed-IsFixed (String.◌∷◌ c s) h =
    let fixed = unexposed-IsFixed s (ground arith) in
    record {
      outside = outside_cons c s fixed h;
      inside = λ n r over value few. inside_cons c s n r fixed over value few;
    }

-- A text in which the pattern matches no value but the placeholder, one that has been redacted among
-- them, is left as it is.
pub redact-unexposed : (s : String) → exposes s ≡ false → redact s ≡ s
unfolding redact
redact-unexposed s h = (unexposed-IsFixed s h).outside

-- A redacted text holds no credential: the pattern matches no value in it but the placeholder. To
-- redact it once more changes nothing.
pub redact_lem : (s : String) → (exposes (redact s) ≡ false) × (redact (redact s) ≡ redact s)
redact_lem s = (exposes-redact s, redact-unexposed (redact s) (exposes-redact s))
