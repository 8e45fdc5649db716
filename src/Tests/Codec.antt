-- ===== src/Tests/Codec.antt =====
-- A codec of JSON values, to stand for the program's: a text is a sequence of one-letter instructions
-- for a stack machine that builds the value.
use Prim.Native.Char.{Char, code}
use ripcord.Prelude.{
  ℕ, zero, suc, String, ◌≡◌, refl, ap, ◌∙◌, Bool, true, false, Option, none, some, List, [], ◌∷◌,
  eqb, if◌then◌else◌,
}
use ripcord.Json.{
  Json, Items, Fields, ℤ, null, bool, int, pos, negsuc, real, str, arr, obj, end, field,
}
use ripcord.Services.Payload.{Codec}

data Cell : Type 0 where
  json : Json → Cell
  items : Items → Cell
  fields : Fields → Cell
  text : String → Cell
  number : ℕ → Cell

abbrev letter : Char → String → String
letter c k = String.◌∷◌ c k

-- The code of each kind of value, in front of `k`.
enc_text : String → String → String
enc_text String.[] k = letter "e" k
enc_text (String.◌∷◌ c s) k = enc_text s (letter "q" (String.◌∷◌ c k))

enc_number : ℕ → String → String
enc_number zero k = letter "z" k
enc_number (suc n) k = enc_number n (letter "s" k)

enc_int : ℤ → String → String
unfolding enc_number
enc_int (pos n) k = enc_number n (letter "p" k)
enc_int (negsuc n) k = enc_number n (letter "m" k)

mutual
  enc : Json → String → String
  enc null k = letter "n" k
  enc (bool true) k = letter "t" k
  enc (bool false) k = letter "f" k
  enc (int i) k = enc_int i k
  enc (real s) k = enc_text s (letter "r" k)
  enc (str s) k = enc_text s (letter "u" k)
  enc (arr xs) k = enc_items xs (letter "a" k)
  enc (obj fs) k = enc_fields fs (letter "o" k)

  enc_items : Items → String → String
  enc_items Items.nil k = letter "0" k
  enc_items (Items.cons x xs) k = enc x (enc_items xs (letter "1" k))

  enc_fields : Fields → String → String
  enc_fields end k = letter "2" k
  enc_fields (field name v fs) k = enc_text name (enc v (enc_fields fs (letter "3" k)))

push_char : Char → List Cell → List Cell
push_char c (text s ∷ st) = text (String.◌∷◌ c s) ∷ st
push_char c st = st

-- The instructions that take cells from the stack.
on_number : (ℕ → Cell) → List Cell → List Cell
on_number f (number n ∷ st) = f n ∷ st
on_number f st = []

on_text : (String → Cell) → List Cell → List Cell
on_text f (text s ∷ st) = f s ∷ st
on_text f st = []

on_items : List Cell → List Cell
on_items (items xs ∷ st) = json (arr xs) ∷ st
on_items st = []

on_fields : List Cell → List Cell
on_fields (fields fs ∷ st) = json (obj fs) ∷ st
on_fields st = []

on_cons : List Cell → List Cell
on_cons (items xs ∷ json x ∷ st) = items (Items.cons x xs) ∷ st
on_cons st = []

on_field : List Cell → List Cell
on_field (fields fs ∷ json v ∷ text s ∷ st) = fields (field s v fs) ∷ st
on_field st = []

combine : ℕ → List Cell → List Cell
unfolding on_number on_text on_items on_fields on_cons on_field
combine op st =
    if eqb op b's'
    then on_number (λ n. number (suc n)) st
    else if eqb op b'p'
    then on_number (λ n. json (int (pos n))) st
    else if eqb op b'm'
    then on_number (λ n. json (int (negsuc n))) st
    else if eqb op b'r'
    then on_text (λ s. json (real s)) st
    else if eqb op b'u'
    then on_text (λ s. json (str s)) st
    else if eqb op b'a'
    then on_items st
    else if eqb op b'1'
    then on_cons st
    else if eqb op b'o'
    then on_fields st
    else on_field st

apply : ℕ → List Cell → List Cell
unfolding combine
apply op st =
    if eqb op b'q'
    then st
    else if eqb op b'e'
    then text String.[] ∷ st
    else if eqb op b'z'
    then number 0 ∷ st
    else if eqb op b'n'
    then json null ∷ st
    else if eqb op b't'
    then json (bool true) ∷ st
    else if eqb op b'f'
    then json (bool false) ∷ st
    else if eqb op b'0'
    then items Items.nil ∷ st
    else if eqb op b'2'
    then fields end ∷ st
    else combine op st

-- After "q" a character is one of a text.
quotes : Bool → Char → Bool
quotes true c = false
quotes false c = eqb (code c) b'q'

step : Bool → Char → List Cell → List Cell
unfolding push_char apply
step true c st = push_char c st
step false c st = apply (code c) st

run : Bool → String → List Cell → List Cell
unfolding quotes step
run q String.[] st = st
run q (String.◌∷◌ c s) st = run (quotes q c) s (step q c st)

run-text : (s k : String) (st : List Cell) → run false (enc_text s k) st ≡ run false k (text s ∷ st)
unfolding run enc_text
run-text String.[] k st = refl
run-text (String.◌∷◌ c s) k st = run-text s (letter "q" (String.◌∷◌ c k)) st

run-number :
    (n : ℕ) (k : String) (st : List Cell)
    → run false (enc_number n k) st ≡ run false k (number n ∷ st)
unfolding run enc_number
run-number zero k st = refl
run-number (suc n) k st = run-number n (letter "s" k) st

run-int :
    (i : ℤ) (k : String) (st : List Cell)
    → run false (enc_int i k) st ≡ run false k (json (int i) ∷ st)
unfolding run enc_int
run-int (pos n) k st = run-number n (letter "p" k) st
run-int (negsuc n) k st = run-number n (letter "m" k) st

mutual
  unfolding run enc enc_items enc_fields

  run-json :
      (j : Json) (k : String) (st : List Cell) → run false (enc j k) st ≡ run false k (json j ∷ st)
  run-json null k st = refl
  run-json (bool true) k st = refl
  run-json (bool false) k st = refl
  run-json (int i) k st = run-int i k st
  run-json (real s) k st = run-text s (letter "r" k) st
  run-json (str s) k st = run-text s (letter "u" k) st
  run-json (arr xs) k st = run-items xs (letter "a" k) st
  run-json (obj fs) k st = run-fields fs (letter "o" k) st

  run-items :
      (xs : Items) (k : String) (st : List Cell)
      → run false (enc_items xs k) st ≡ run false k (items xs ∷ st)
  run-items Items.nil k st = refl
  run-items (Items.cons x xs) k st =
      run-json x (enc_items xs (letter "1" k)) st ∙ run-items xs (letter "1" k) (json x ∷ st)

  run-fields :
      (fs : Fields) (k : String) (st : List Cell)
      → run false (enc_fields fs k) st ≡ run false k (fields fs ∷ st)
  run-fields end k st = refl
  run-fields (field name v fs) k st =
      run-text name (enc v (enc_fields fs (letter "3" k))) st
      ∙ run-json v (enc_fields fs (letter "3" k)) (text name ∷ st)
      ∙ run-fields fs (letter "3" k) (json v ∷ text name ∷ st)

result : List Cell → Option Json
result (json j ∷ []) = some j
result _ = none

loads : String → Option Json
unfolding result
loads s = result (run false s [])

loads-enc : (j : Json) → loads (enc j "") ≡ some j
unfolding loads run
loads-enc j = ap result (run-json j "" [])

pub stack_codec : Codec
stack_codec = record {
  dumps = λ j. enc j "";
  loads = loads;
  loads-dumps = loads-enc;
  flag_id = λ flag. int (pos 1);
  created_at = λ flag. str "2025-01-01T00:00:00Z";
  updated_at = λ flag. str "2025-01-01T00:00:00Z";
  rule_id = λ r. int (pos 1);
  variant_id = λ v. int (pos 1);
  flag_id-loaded = λ flag. refl;
  created_at-loaded = λ flag. refl;
  updated_at-loaded = λ flag. refl;
}
