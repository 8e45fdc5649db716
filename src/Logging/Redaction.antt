-- ===== src/Logging/Redaction.antt =====
-- ripcord/logging_config.py: what the redaction of a text leaves of it.
use Prim.Native.Char.{Char, code}
use ripcord.Prelude.{
  ℕ, zero, suc, String, ◌≡◌, refl, Bool, true, false, not, ◌&&◌, ◌||◌, eqb, Bool-cases, inl, inr,
  arith,
}
use ripcord.Logging.{
  is_value, parameter, replacement, glue, starts_match, Mode, copying, in_match, redact_from,
  redact,
}

-- No first letter of the name in a part of it.
abbrev pub lacks_start : String → Bool
lacks_start String.[] = true
lacks_start (String.◌∷◌ c s) = not (eqb (code c) b'a') && lacks_start s

-- The rest of a value is at its end here.
abbrev pub is_over : String → Bool
is_over String.[] = true
is_over (String.◌∷◌ c s) = not (is_value (code c))

-- The text has the replacement at its front, and no more of a value behind it.
abbrev pub is_replaced : String → String → Bool
is_replaced String.[] s = is_over s
is_replaced (String.◌∷◌ p r) String.[] = false
is_replaced (String.◌∷◌ p r) (String.◌∷◌ c s) = eqb (code p) (code c) && is_replaced r s

-- Somewhere in the text the pattern matches a value that is not the placeholder.
abbrev pub exposes : String → Bool
exposes String.[] = false
exposes (String.◌∷◌ c s) =
    (starts_match parameter (String.◌∷◌ c s) && not (is_replaced replacement (String.◌∷◌ c s)))
    || exposes s

pub copying-match :
    (c : Char) (s : String)
    → starts_match parameter (String.◌∷◌ c s) ≡ true
    → redact_from copying (String.◌∷◌ c s) ≡ glue replacement (redact_from (in_match 7) s)
unfolding redact_from
copying-match c s e = rw (redact_from, e) refl

pub copying-miss :
    (c : Char) (s : String)
    → starts_match parameter (String.◌∷◌ c s) ≡ false
    → redact_from copying (String.◌∷◌ c s) ≡ String.◌∷◌ c (redact_from copying s)
unfolding redact_from
copying-miss c s e = rw (redact_from, e) refl

pub code-match :
    (c : Char) (s : String) → starts_match parameter (String.◌∷◌ c s) ≡ true → code c ≡ 97
unfolding starts_match
code-match c s e = ground arith

-- A part of the name that lacks its first letter starts a text where it starts the redacted one.
starts_match-redact :
    (name s : String)
    → lacks_start name ≡ true
    → starts_match name (redact_from copying s) ≡ starts_match name s
unfolding redact_from starts_match is_value ripcord.Auth.Guard.is_space
starts_match-redact name String.[] h = refl
starts_match-redact String.[] (String.◌∷◌ c s) h =
    elim (Bool-cases (starts_match parameter (String.◌∷◌ c s))) [
      | inl e ↦ rw (copying-match c s e, code-match c s e) refl
      | inr e ↦ rw (copying-miss c s e) refl
    ]
starts_match-redact (String.◌∷◌ p name) (String.◌∷◌ c s) h =
    elim (Bool-cases (starts_match parameter (String.◌∷◌ c s))) [
      | inl e ↦ rw (copying-match c s e, code-match c s e) (ground arith)
      | inr e ↦ rw (copying-miss c s e) (ground (arith, starts_match-redact name s))
    ]

is_over-redact : (n : ℕ) (s : String) → is_over (redact_from (in_match n) s) ≡ true
unfolding redact_from
is_over-redact n String.[] = refl
is_over-redact zero (String.◌∷◌ c s) = elim (Bool-cases (is_value (code c))) [
  | inl e ↦ rw (redact_from, e) (is_over-redact zero s)
  | inr e ↦ rw (redact_from, e) (ground arith)
]
is_over-redact (suc n) (String.◌∷◌ c s) = is_over-redact n s

exposes-replacement :
    (s : String) → is_over s ≡ true → exposes s ≡ false → exposes (glue replacement s) ≡ false
unfolding starts_match is_value ripcord.Auth.Guard.is_space
exposes-replacement s over hidden = rw over hidden

pub value-start : is_value 97 ≡ true
unfolding is_value ripcord.Auth.Guard.is_space
value-start = refl

-- A character behind a value starts no match.
match-over :
    (c : Char) (s : String)
    → is_value (code c) ≡ false
    → starts_match parameter (String.◌∷◌ c s) ≡ false
match-over c s over = elim (Bool-cases (starts_match parameter (String.◌∷◌ c s))) [
  | inl e ↦ let value : is_value (code c) ≡ true = rw (code-match c s e) value-start in absurd (cc)
  | inr e ↦ e
]

match-miss :
    (c : Char) (s : String)
    → starts_match parameter (String.◌∷◌ c s) ≡ false
    → starts_match parameter (String.◌∷◌ c (redact_from copying s)) ≡ false
unfolding starts_match
match-miss c s e = ground (arith, starts_match-redact "pi_key=" s)

exposes-redact_from : (mode : Mode) (s : String) → exposes (redact_from mode s) ≡ false
unfolding redact_from
exposes-redact_from mode String.[] = refl
exposes-redact_from copying (String.◌∷◌ c s) =
    elim (Bool-cases (starts_match parameter (String.◌∷◌ c s))) [
      | inl e ↦ rw (copying-match c s e) (
          exposes-replacement (redact_from (in_match 7) s) (is_over-redact 7 s)
            (exposes-redact_from (in_match 7) s))
      | inr e ↦ rw (copying-miss c s e) (rw (match-miss c s e) (exposes-redact_from copying s))
    ]
exposes-redact_from (in_match zero) (String.◌∷◌ c s) = elim (Bool-cases (is_value (code c))) [
  | inl e ↦ rw (redact_from, e) (exposes-redact_from (in_match zero) s)
  | inr e ↦
      rw (redact_from, e)
        (rw (match-over c (redact_from copying s) e) (exposes-redact_from copying s))
]
exposes-redact_from (in_match (suc n)) (String.◌∷◌ c s) = exposes-redact_from (in_match n) s

-- In a redacted text the pattern matches no value but the placeholder.
pub exposes-redact : (s : String) → exposes (redact s) ≡ false
unfolding redact
exposes-redact s = exposes-redact_from copying s
