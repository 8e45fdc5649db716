-- ===== src/Tests/Engine.antt =====
-- Runs of ripcord/engine.py, with a digest that is read off the hashed text itself.
use mathlib.Core.List.{Permᴰ}
use Prim.Native.Char.{Char, char, code, IsScalar}
use Prim.Native.String.{◌++◌}
use text.Mathlib.TextLemmas.{nil-append, cons-append}
use ripcord.Prelude.{
  ℕ, ◌+◌, ◌/◌, ◌%◌, ◌<◌, String, ◌≡◌, refl, ap, ◌∙◌, true, false, none, some, [], ◌∷◌, arith, ltb,
  eqb, str_le, count_below, if◌then◌else◌,
}
use ripcord.Json.{str}
use ripcord.Engine.Spec.{RuleSpec, VariantSpec, FlagSpec}
use ripcord.Engine.Bucket.{
  bucket_for, in_rollout, bucket_count, variant_salt, material, prefix, int_base16, hex_digit,
}
use ripcord.Engine.Rules.{Context, rule_matches}
use ripcord.Engine.Variants.{find_key, find_variant, sort_by_key, pick, choose_variant}
use ripcord.Engine.Evaluate.{
  off_result, on_result, rule_result, first_match, rollout_result, evaluate, serve,
}
use ripcord.Engine.Material.{no_nul, separator-append, material_injective}
use ripcord.Engine.Material
use ripcord.Engine.Rollout
use ripcord.Engine.Weights
use ripcord.Engine.Reorder
use ripcord.Engine.Served
use ripcord.Engine.Decision

-- What follows the first NUL of a text.
after_nul : String → String
after_nul String.[] = String.[]
after_nul (String.◌∷◌ c s) = if eqb (code c) 0 then s else after_nul s

after_nul-append : (s u : String) → no_nul s ≡ true → after_nul (s ++ ("\0" ++ u)) ≡ u
unfolding after_nul
after_nul-append String.[] u h = rw (nil-append, separator-append) refl
after_nul-append (String.◌∷◌ c s) u h = rw (cons-append c s) (ground (arith, after_nul-append s u))

-- A digest that is the user's id.
plain_digest : String → String
unfolding after_nul
plain_digest s = after_nul (after_nul s)

plain_digest-material :
    (key salt user : String)
    → no_nul key ≡ true
    → no_nul salt ≡ true
    → plain_digest (material key user salt) ≡ user
unfolding plain_digest material
plain_digest-material key salt user h k =
    ap after_nul (after_nul-append key (salt ++ ("\0" ++ user)) h) ∙ after_nul-append salt user k

IsScalar-small : (n : ℕ) → n < 200 → IsScalar n
IsScalar-small n h = ground arith

-- The hexadecimal digit of a number, modulo 16.
digit_code : ℕ → ℕ
digit_code d = if ltb (d % 16) 10 then 48 + d % 16 else 87 + d % 16

digit_code-lt : (d : ℕ) → digit_code d < 200
unfolding digit_code
digit_code-lt d = ground arith

digit : ℕ → Char
digit d = char (digit_code d) (IsScalar-small (digit_code d) (digit_code-lt d))

-- A user for each bucket: its number in hexadecimal.
user_of : ℕ → String
user_of b =
    String.◌∷◌ (digit (b / 4096))
      (String.◌∷◌ (digit (b / 256)) (String.◌∷◌ (digit (b / 16)) (String.◌∷◌ (digit b) String.[])))

hex_digit-digit : (d : ℕ) → hex_digit (code (digit d)) ≡ d % 16
unfolding hex_digit digit digit_code
hex_digit-digit d = ground arith

base16-user : (b : ℕ) → b < bucket_count → int_base16 0 (prefix 8 (user_of b)) % bucket_count ≡ b
unfolding int_base16 prefix user_of
base16-user b h =
    rw
      (
        hex_digit-digit (b / 4096),
        hex_digit-digit (b / 256),
        hex_digit-digit (b / 16),
        hex_digit-digit b,
      )
      (omega arith)

bucket_for-user :
    (key salt : String)
    → no_nul key ≡ true
    → no_nul salt ≡ true
    → (b : ℕ) → b < bucket_count
    → bucket_for plain_digest key (user_of b) salt ≡ b
unfolding bucket_for
bucket_for-user key salt h k b l =
    ap (λ d. int_base16 0 (prefix 8 d) % bucket_count)
      (plain_digest-material key salt (user_of b) h k)
    ∙ base16-user b l

program : Unit {0}
unfolding evaluate rollout_result rule_result first_match off_result on_result serve in_rollout
    bucket_for rule_matches find_variant find_key choose_variant sort_by_key pick str_le
    plain_digest material
program = tt

abbrev light : VariantSpec
light = record { key = "light"; value = str "#fff"; weight = 30 }

abbrev dark : VariantSpec
dark = record { key = "dark"; value = str "#000"; weight = 70 }

abbrev rule : String → RuleSpec
rule operator = record {
  attribute = "country";
  operator = operator;
  values = "de" ∷ "fr" ∷ [];
  variant = some "dark";
}

-- A flag with two variants, a rule and a rollout of a quarter.
abbrev theme : FlagSpec
theme = record {
  key = "theme";
  enabled = true;
  rollout_percentage = 25;
  rules = rule "in" ∷ [];
  variants = light ∷ dark ∷ [];
  off_variant = some "light";
}

abbrev german : Context
german = ("country", "de") ∷ []

targeted : evaluate plain_digest theme "00ff" (some german) ≡ record {
  enabled = true;
  reason = "targeting_match";
  variant = some "dark";
  value = str "#000";
}
unfolding program
targeted = refl

-- Bucket 255 lies below 2500 and in the band of "dark", the first key.
included : evaluate plain_digest theme "00ff" none ≡ record {
  enabled = true;
  reason = "rollout_included";
  variant = some "dark";
  value = str "#000";
}
unfolding program
included = refl

excluded : evaluate plain_digest theme "0fff" none ≡ record {
  enabled = false;
  reason = "rollout_excluded";
  variant = some "light";
  value = str "#fff";
}
unfolding program
excluded = refl

evaluate_decision_example :
    ((evaluate plain_digest theme "00ff" none).enabled ≡ true)
    × ((evaluate plain_digest theme "00ff" none).reason ≡ "rollout_included")
unfolding program
evaluate_decision_example = Decision.evaluate_decision plain_digest theme "00ff" none

evaluate_mono_example :
    evaluate plain_digest (record theme { rollout_percentage = 40 }) "00ff" none
    ≡ evaluate plain_digest theme "00ff" none
unfolding program
evaluate_mono_example = Rollout.evaluate_mono plain_digest theme "00ff" 40 none (omega arith) refl

in_rollout_share_example :
    count_below bucket_count (λ b. in_rollout plain_digest "theme" (user_of b) 25) ≡ 2500
in_rollout_share_example =
    Rollout.in_rollout_share plain_digest "theme" user_of 25 (bucket_for-user "theme" "" refl refl)
      (omega arith)

choose_variant_share_example :
    count_below bucket_count
      (λ b. Weights.serves (choose_variant plain_digest theme (user_of b)) "dark")
    ≡ 7000
unfolding find_key
choose_variant_share_example =
    Weights.choose_variant_share plain_digest theme user_of dark
      (bucket_for-user "theme" variant_salt refl refl) refl refl refl

evaluate-perm_example :
    evaluate plain_digest (record theme { variants = dark ∷ light ∷ [] }) "00ff" none
    ≡ evaluate plain_digest theme "00ff" none
evaluate-perm_example =
    Reorder.evaluate-perm plain_digest theme (dark ∷ light ∷ []) "00ff" none (Permᴰ.swap refl refl)
      refl

evaluate-ServesFrom_example :
    Served.ServesFrom theme.variants (evaluate plain_digest theme "00ff" (some german))
evaluate-ServesFrom_example = Served.evaluate-ServesFrom plain_digest theme "00ff" (some german)

abbrev user_b : String
user_b = "b"

material_injective_example :
    (theme.key ≡ theme.key) × (variant_salt ≡ variant_salt) × (user_b ≡ user_b)
material_injective_example =
    Material.material_injective theme.key variant_salt user_b theme.key variant_salt user_b refl
      refl refl refl refl
