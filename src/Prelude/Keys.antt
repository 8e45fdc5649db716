-- ===== src/Prelude/Keys.antt =====
-- Lists of names: membership, distinctness, and both under a permutation.
use Prim.Native.String.{String}
use mathlib.Core.Path.{◌≡◌, refl, ap, ◌∙◌}
use mathlib.Core.Bool.{Bool, true, not, ◌&&◌}
use mathlib.Core.List.{List, [], ◌∷◌, map, Permᴰ}
use native.Mathlib.Omega.{arith}
use text.Mathlib.Text.{◌==◌}
use text.Mathlib.TextEquality.{eq_iff}
use ripcord.Prelude.Lists.{any}

-- `name in names`
abbrev pub is_in : String → List String → Bool
is_in name names = any (λ n. n == name) names

abbrev pub is_distinct : List String → Bool
is_distinct [] = true
is_distinct (n ∷ ns) = not (is_in n ns) && is_distinct ns

-- The order of a list changes neither what it holds nor whether it holds something twice.
pub is_in-perm : {xs ys : List String} (n : String) → Permᴰ xs ys → is_in n xs ≡ is_in n ys
is_in-perm n Permᴰ.nil = refl
is_in-perm n (Permᴰ.cons e p) = cc (e, is_in-perm n p)
is_in-perm n (Permᴰ.swap e f) = ground arith
is_in-perm n (Permᴰ.trans p q) = is_in-perm n p ∙ is_in-perm n q

pub is_distinct-perm : {xs ys : List String} → Permᴰ xs ys → is_distinct xs ≡ is_distinct ys
is_distinct-perm Permᴰ.nil = refl
is_distinct-perm (Permᴰ.cons {a} {b} {l₁} {l₂} e p) =
    ground (arith, is_in-perm a p, is_distinct-perm p)
is_distinct-perm (Permᴰ.swap {a} {b} {a'} {b'} e f) = ground (arith, eq_iff a b, eq_iff b a)
is_distinct-perm (Permᴰ.trans p q) = is_distinct-perm p ∙ is_distinct-perm q

pub map-perm {ℓ} :
    {A : Type ℓ} (f : A → String) {xs ys : List A} → Permᴰ xs ys → Permᴰ (map f xs) (map f ys)
map-perm f Permᴰ.nil = Permᴰ.nil
map-perm f (Permᴰ.cons e p) = Permᴰ.cons (ap f e) (map-perm f p)
map-perm f (Permᴰ.swap e g) = Permᴰ.swap (ap f e) (ap f g)
map-perm f (Permᴰ.trans p q) = Permᴰ.trans (map-perm f p) (map-perm f q)
