-- ===== src/Prelude/Text.antt =====
-- Python's order on strings, by code points, and its laws.
use Prim.Native.Char.{code}
use Prim.Native.String.{String}
use mathlib.Core.Path.{◌≡◌, refl, ap₂}
use mathlib.Core.Bool.{Bool, true, false}
use native.Mathlib.Omega.{arith}
use text.Mathlib.TextEquality.{Char-path}
use ripcord.Prelude.Tests.{ltb, if◌then◌else◌}

-- `s <= t`
unfoldable pub str_le : String → String → Bool
str_le String.[] t = true
str_le (String.◌∷◌ c s) String.[] = false
str_le (String.◌∷◌ c s) (String.◌∷◌ d t) =
    if ltb (code c) (code d) then true else if ltb (code d) (code c) then false else str_le s t

pub str_le_refl : (s : String) → str_le s s ≡ true
unfolding str_le
str_le_refl String.[] = refl
str_le_refl (String.◌∷◌ c s) = ground (arith, str_le_refl s)

pub str_le_total : (s t : String) → str_le s t ≡ false → str_le t s ≡ true
unfolding str_le
str_le_total String.[] t h = ground arith
str_le_total (String.◌∷◌ c s) String.[] h = refl
str_le_total (String.◌∷◌ c s) (String.◌∷◌ d t) h = ground (arith, str_le_total s t)

pub str_le_trans : (s t u : String) → str_le s t ≡ true → str_le t u ≡ true → str_le s u ≡ true
unfolding str_le
str_le_trans String.[] t u h k = refl
str_le_trans (String.◌∷◌ c s) String.[] u h k = ground arith
str_le_trans (String.◌∷◌ c s) (String.◌∷◌ d t) String.[] h k = ground arith
str_le_trans (String.◌∷◌ c s) (String.◌∷◌ d t) (String.◌∷◌ e u) h k =
    ground (arith, str_le_trans s t u)

pub str_le_antisymm : (s t : String) → str_le s t ≡ true → str_le t s ≡ true → s ≡ t
unfolding str_le
str_le_antisymm String.[] String.[] h k = refl
str_le_antisymm String.[] (String.◌∷◌ d t) h k = ground arith
str_le_antisymm (String.◌∷◌ c s) String.[] h k = ground arith
str_le_antisymm (String.◌∷◌ c s) (String.◌∷◌ d t) h k =
    ap₂ String.◌∷◌ (Char-path c d (ground arith))
      (str_le_antisymm s t (ground arith) (ground arith))
