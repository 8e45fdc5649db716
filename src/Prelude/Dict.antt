-- ===== src/Prelude/Dict.antt =====
-- Python's `dict` with string keys, as the list of its entries.
use Prim.Native.String.{String}
use mathlib.Core.Path.{◌≡◌, refl}
use mathlib.Core.Option.{Option, none, some}
use mathlib.Core.List.{List, [], ◌∷◌}
use native.Mathlib.Omega.{arith}
use text.Mathlib.Text.{◌==◌}
use text.Mathlib.TextEquality.{eq_iff}
use ripcord.Prelude.Tests.{if◌then◌else◌}

abbrev pub Dict {ℓ} : Type ℓ → Type ℓ
Dict V = List (String × V)

module _ {ℓ} {V : Type ℓ} where
  -- `d.get(key)`
  unfoldable pub get : Dict V → String → Option V
  get [] key = none
  get ((k, v) ∷ d) key = if k == key then some v else get d key

  -- `d.pop(key, None)`
  unfoldable pub pop : Dict V → String → Dict V
  pop [] key = []
  pop ((k, v) ∷ d) key = let rest = pop d key in if k == key then rest else (k, v) ∷ rest

  -- `d[key] = value`, the place of an old entry kept
  unfoldable pub put : Dict V → String → V → Dict V
  put [] key value = (key, value) ∷ []
  put ((k, v) ∷ d) key value = if k == key then (key, value) ∷ d else (k, v) ∷ put d key value

  pub get-pop :
      (d : Dict V) (key k : String) → get (pop d key) k ≡ (if key == k then none else get d k)
  unfolding get pop
  get-pop [] key k = ground arith
  get-pop ((j, v) ∷ d) key k =
      ground (arith, get-pop d key k, eq_iff j key, eq_iff j k, eq_iff key k)

  pub get-put :
      (d : Dict V) (key k : String) (value : V)
      → get (put d key value) k ≡ (if key == k then some value else get d k)
  unfolding get put
  get-put [] key k value = refl
  get-put ((j, v) ∷ d) key k value =
      ground (arith, get-put d key k value, eq_iff j key, eq_iff j k, eq_iff key k)

  pub get-empty : (k : String) → get [] k ≡ none
  unfolding get
  get-empty k = refl
