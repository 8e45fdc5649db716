-- ===== src/Engine/Material.antt =====
-- ripcord/engine.py: the text that `bucket_for` hashes.
use Prim.Native.Char.{Char, code, nul}
use Prim.Native.String.{◌++◌}
use text.Mathlib.TextLemmas.{nil-append, cons-append, append_cancel_left, cons-eq-cons}
use ripcord.Prelude.{String, ◌≡◌, refl, ap, ap₂, ◌∙◌, sym, Bool, true, not, ◌&&◌, eqb, arith}
use ripcord.Engine.Bucket.{material}

-- No character of the text is NUL.
abbrev pub no_nul : String → Bool
no_nul String.[] = true
no_nul (String.◌∷◌ c s) = not (eqb (code c) 0) && no_nul s

pub separator-append : (u : String) → ("\0" ++ u) ≡ String.◌∷◌ nul u
separator-append u = cons-append nul String.[] u ∙ ap (String.◌∷◌ nul) (nil-append u)

-- A text that begins with NUL is no text whose first character is another one.
nul_head :
    (c : Char) (s u v : String)
    → no_nul (String.◌∷◌ c s) ≡ true
    → ("\0" ++ u) ≡ (String.◌∷◌ c s ++ ("\0" ++ v))
    → ⊥
nul_head c s u v h e =
    ground (arith, ap code ((cons-eq-cons.0 (simp (separator-append, cons-append) at e)).0))

-- Two texts, split at their first NUL.
split_at_nul :
    (s t u v : String)
    → no_nul s ≡ true
    → no_nul t ≡ true
    → (s ++ ("\0" ++ u)) ≡ (t ++ ("\0" ++ v))
    → (s ≡ t) × (u ≡ v)
split_at_nul String.[] String.[] u v h k e =
    (refl, append_cancel_left "\0" u v (simp nil-append at e))
split_at_nul String.[] (String.◌∷◌ d t) u v h k e =
    absurd (nul_head d t u v k (simp nil-append at e))
split_at_nul (String.◌∷◌ c s) String.[] u v h k e =
    absurd (nul_head c s v u h (sym (simp nil-append at e)))
split_at_nul (String.◌∷◌ c s) (String.◌∷◌ d t) u v h k e =
    let (same, rest) = cons-eq-cons.0 (simp cons-append at e) in
    let (tails, after) = split_at_nul s t u v (ground arith) (ground arith) rest in
    (ap₂ String.◌∷◌ same tails, after)

-- The hashed text determines the flag, the salt and the user, when neither flag key nor salt holds
-- a NUL; the user's id may hold any character.
pub material_injective :
    (flag_key salt user flag_key' salt' user' : String)
    → no_nul flag_key ≡ true
    → no_nul salt ≡ true
    → no_nul flag_key' ≡ true
    → no_nul salt' ≡ true
    → material flag_key user salt ≡ material flag_key' user' salt'
    → (flag_key ≡ flag_key') × (salt ≡ salt') × (user ≡ user')
unfolding material
material_injective f s u f' s' u' hf hs hf' hs' e =
    let (same, rest) = split_at_nul f f' (s ++ ("\0" ++ u)) (s' ++ ("\0" ++ u')) hf hf' e in
    let (salts, users) = split_at_nul s s' u u' hs hs' rest in (same, salts, users)
