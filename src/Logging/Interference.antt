-- ===== src/Logging/Interference.antt =====
-- ripcord/logging_config.py: two lines that differ in their credentials alone.
use Prim.Native.Char.{Char, code}
use ripcord.Prelude.{
  ℕ, zero, suc, ◌≤◌, String, ◌≡◌, refl, ap, ◌∙◌, sym, Bool, true, false, ◌&&◌, eqb, leb, Bool-cases,
  inl, inr, arith,
}
use ripcord.Auth.Key.{is_empty_text}
use ripcord.Logging.{
  is_value, parameter, replacement, glue, starts_match, Mode, copying, in_match, redact_from,
  redact,
}
use ripcord.Logging.Redaction.{lacks_start, copying-match, copying-miss}
use ripcord.Logging.Secrecy.{is_credential, text_length}

-- A match drops the characters of its value, whatever stands behind them.
redact_from-drop :
    (n : ℕ) (value rest : String)
    → is_credential value ≡ true
    → n ≤ text_length value
    → redact_from (in_match n) (glue value rest) ≡ redact_from (in_match 0) rest
unfolding redact_from
redact_from-drop zero String.[] rest h few = refl
redact_from-drop zero (String.◌∷◌ c s) rest h few =
    let held : is_value (code c) ≡ true = ground arith in
    rw (redact_from, held) (redact_from-drop zero s rest (ground arith) (omega arith))
redact_from-drop (suc n) String.[] rest h few = absurd (omega arith)
redact_from-drop (suc n) (String.◌∷◌ c s) rest h few =
    redact_from-drop n s rest (ground arith) (omega arith)

-- A line from the credential's name on.
abbrev from_name : String → String → String
from_name value rest = glue parameter (glue value rest)

name-credential :
    (value : String) → is_credential value ≡ true → is_credential (glue parameter value) ≡ true
unfolding is_value ripcord.Auth.Guard.is_space
name-credential value h = h

tail-credential :
    (value : String) → is_credential value ≡ true → is_credential (glue "pi_key=" value) ≡ true
unfolding is_value ripcord.Auth.Guard.is_space
tail-credential value h = h

redact_from-in_match :
    (n : ℕ) (value rest : String)
    → is_credential value ≡ true
    → n ≤ 7
    → redact_from (in_match n) (from_name value rest) ≡ redact_from (in_match 0) rest
redact_from-in_match n value rest h few =
    redact_from-drop n (glue parameter value) rest (name-credential value h) (omega arith)

starts-from_name :
    (value rest : String)
    → is_credential value ≡ true
    → is_empty_text value ≡ false
    → starts_match parameter (from_name value rest) ≡ true
unfolding starts_match
starts-from_name String.[] rest h some_value = absurd (cc)
starts-from_name (String.◌∷◌ c s) rest h some_value = ground arith

redact_from-name :
    (value rest : String)
    → is_credential value ≡ true
    → is_empty_text value ≡ false
    → redact_from copying (from_name value rest) ≡ glue replacement (redact_from (in_match 0) rest)
redact_from-name value rest h some_value =
    copying-match "a" (glue "pi_key=" (glue value rest)) (starts-from_name value rest h some_value)
    ∙ ap (glue replacement)
        (redact_from-drop 7 (glue "pi_key=" value) rest (tail-credential value h) (omega arith))

starts-same :
    (name before v w rest : String)
    → lacks_start name ≡ true
    → starts_match name (glue before (from_name v rest))
      ≡ starts_match name (glue before (from_name w rest))
unfolding starts_match
starts-same String.[] String.[] v w rest h = refl
starts-same (String.◌∷◌ p name) String.[] v w rest h = ground arith
starts-same String.[] (String.◌∷◌ c b) v w rest h = refl
starts-same (String.◌∷◌ p name) (String.◌∷◌ c b) v w rest h =
    ap (λ x. eqb (code p) (code c) && x) (starts-same name b v w rest (ground arith))

starts-parameter :
    (c : Char) (before v w rest : String)
    → starts_match parameter (String.◌∷◌ c (glue before (from_name v rest)))
      ≡ starts_match parameter (String.◌∷◌ c (glue before (from_name w rest)))
unfolding starts_match
starts-parameter c before v w rest =
    ap (λ x. eqb 97 (code c) && x) (starts-same "pi_key=" before v w rest refl)

-- No more of the name to come than there is behind its first letter.
abbrev fits : Mode → Bool
fits copying = true
fits (in_match n) = leb n 7

module _ (v w rest : String) (v_value : is_credential v ≡ true) (w_value : is_credential w ≡ true)
    (v_there : is_empty_text v ≡ false) (w_there : is_empty_text w ≡ false) where
  redact_from-same :
      (mode : Mode) (before : String)
      → fits mode ≡ true
      → redact_from mode (glue before (from_name v rest))
        ≡ redact_from mode (glue before (from_name w rest))
  unfolding redact_from
  redact_from-same copying String.[] fit =
      redact_from-name v rest v_value v_there ∙ sym (redact_from-name w rest w_value w_there)
  redact_from-same (in_match n) String.[] fit =
      redact_from-in_match n v rest v_value (ground arith)
      ∙ sym (redact_from-in_match n w rest w_value (ground arith))
  redact_from-same copying (String.◌∷◌ c b) fit =
      let same = starts-parameter c b v w rest in
      elim (Bool-cases (starts_match parameter (String.◌∷◌ c (glue b (from_name v rest))))) [
        | inl e ↦
            copying-match c (glue b (from_name v rest)) e
            ∙ ap (glue replacement) (redact_from-same (in_match 7) b refl)
            ∙ sym (copying-match c (glue b (from_name w rest)) (sym same ∙ e))
        | inr e ↦
            copying-miss c (glue b (from_name v rest)) e
            ∙ ap (String.◌∷◌ c) (redact_from-same copying b refl)
            ∙ sym (copying-miss c (glue b (from_name w rest)) (sym same ∙ e))
      ]
  redact_from-same (in_match zero) (String.◌∷◌ c b) fit = elim (Bool-cases (is_value (code c))) [
    | inl e ↦ rw (redact_from, e) (redact_from-same (in_match zero) b refl)
    | inr e ↦ rw (redact_from, e) (ap (String.◌∷◌ c) (redact_from-same copying b refl))
  ]
  redact_from-same (in_match (suc n)) (String.◌∷◌ c b) fit =
      redact_from-same (in_match n) b (ground arith)

-- Two lines that differ in a credential alone, each at least one character of a value, are logged
-- alike, whatever stands before its name and behind it.
pub redact-independent :
    (before v w rest : String)
    → is_credential v ≡ true
    → is_credential w ≡ true
    → is_empty_text v ≡ false
    → is_empty_text w ≡ false
    → redact (glue before (glue parameter (glue v rest)))
      ≡ redact (glue before (glue parameter (glue w rest)))
unfolding redact
redact-independent before v w rest v_value w_value v_there w_there =
    redact_from-same v w rest v_value w_value v_there w_there copying before refl
