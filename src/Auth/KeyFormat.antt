-- ===== src/Auth/KeyFormat.antt =====
-- ripcord/auth.py: `generate_key` and `split_key`, on the text of a key and its parts.
use Prim.Native.Char.{Char, code}
use Prim.Native.String.{◌++◌}
use text.Mathlib.TextLemmas.{nil-append, cons-append}
use text.Mathlib.TextEquality.{Char-path}
use ripcord.Prelude.{
  String, ◌≡◌, refl, ap, ◌∙◌, Bool, true, false, not, ◌&&◌, some, arith, eq_iff, eqb, Bool-cases,
  Option-cases, inl, inr,
}
use ripcord.Auth.Key.{
  key_prefix, format_key, generate_key, split_once, is_empty_text, is_hex, split_key,
}

abbrev underscore : Char
underscore = "_"

-- No underscore in a text.
abbrev plain : String → Bool
plain String.[] = true
plain (String.◌∷◌ c s) = not (eqb (code c) b'_') && plain s

hex-plain : (s : String) → is_hex s ≡ true → plain s ≡ true
hex-plain String.[] h = refl
hex-plain (String.◌∷◌ c s) h = ground (arith, hex-plain s)

separator-append : (s : String) → ("_" ++ s) ≡ String.◌∷◌ underscore s
separator-append s = cons-append underscore String.[] s ∙ ap (String.◌∷◌ underscore) (nil-append s)

split_once_join : (s t : String) → plain s ≡ true → split_once (s ++ ("_" ++ t)) ≡ some (s, t)
unfolding split_once
split_once_join String.[] t h = rw (nil-append, separator-append) refl
split_once_join (String.◌∷◌ c s) t h = rw (cons-append c s) (ground (arith, split_once_join s t))

-- What is split was joined.
split_once_inverse : (s a b : String) → split_once s ≡ some (a, b) → s ≡ a ++ ("_" ++ b)
unfolding split_once
split_once_inverse String.[] a b h = absurd (cc)
split_once_inverse (String.◌∷◌ c s) a b h = elim (Bool-cases (eqb (code c) b'_')) [
  | inl here ↦
      let same : c ≡ underscore = Char-path c underscore (ground arith) in
      let front : a ≡ String.[] = ground arith in
      let back : b ≡ s = ground arith in rw (same, front, back, nil-append, separator-append)
  | inr later ↦ elim (Option-cases (split_once s)) [
    | inl e ↦ absurd (ground arith)
    | inr ((x, y), e) ↦
        let front : a ≡ String.◌∷◌ c x = ground arith in
        let back : b ≡ y = ground arith in
        rw (front, back, cons-append) (ap (String.◌∷◌ c) (split_once_inverse s x y e))
  ]
]

-- A minted key splits into its two halves, whatever the secret holds.
pub split-generate :
    (sha256 : String → String) (key_id secret : String)
    → is_hex key_id ≡ true
    → is_empty_text key_id ≡ false
    → is_empty_text secret ≡ false
    → split_key (generate_key sha256 key_id secret).0 ≡ some (key_id, secret)
unfolding split_key generate_key format_key
split-generate sha256 key_id secret hex some_id some_secret = ground (
  arith,
  split_once_join key_prefix (key_id ++ ("_" ++ secret)) refl,
  split_once_join key_id secret (hex-plain key_id hex),
)

-- A text that splits is `rpc_<key_id>_<secret>`, with a hexadecimal key id and both halves there.
pub split_key-inverse :
    (full_key key_id secret : String)
    → split_key full_key ≡ some (key_id, secret)
    → (full_key ≡ format_key key_id secret)
      × (is_hex key_id ≡ true)
      × (is_empty_text key_id ≡ false)
      × (is_empty_text secret ≡ false)
unfolding split_key format_key
split_key-inverse full_key key_id secret h = elim (Option-cases (split_once full_key)) [
  | inl e ↦ absurd (ground arith)
  | inr ((first, rest), e) ↦ elim (Option-cases (split_once rest)) [
    | inl f ↦ absurd (ground arith)
    | inr ((second, third), f) ↦
        let prefix : first ≡ key_prefix = ground (arith, eq_iff first key_prefix) in
        let middle : second ≡ key_id = ground arith in
        let last : third ≡ secret = ground arith in
        (
          cc (
            prefix,
            middle,
            last,
            split_once_inverse full_key first rest e,
            split_once_inverse rest second third f,
          ),
          ground arith,
          ground arith,
          ground arith,
        )
  ]
]
