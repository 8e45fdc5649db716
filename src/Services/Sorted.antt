-- ===== src/Services/Sorted.antt =====
-- ripcord/models.py: what the declared orders of a flag's relationships keep.
use mathlib.Core.List.{Permᴰ}
use mathlib.Core.List.Permᴰ
use ripcord.Prelude.{
  ◌+◌, ◌≡◌, refl, ap, ap₂, ◌∙◌, Bool, true, false, ◌&&◌, ◌||◌, any, List, [], ◌∷◌, arith, all,
  str_le, if◌then◌else◌,
}
use ripcord.Models.{Variant, TargetingRule, sort_rules, sort_variants, insert_rule, insert_variant}
use ripcord.Services.Apply.{row_weights}

insert_variant_perm : (v : Variant) (l : List Variant) → Permᴰ (insert_variant v l) (v ∷ l)
unfolding insert_variant
insert_variant_perm v [] = Permᴰ.refl (v ∷ [])
insert_variant_perm v (w ∷ l) =
    elim (str_le v.key w.key)
      as (λ b. Permᴰ (if b then v ∷ w ∷ l else w ∷ insert_variant v l) (v ∷ w ∷ l)) [
        | true ↦ Permᴰ.refl (v ∷ w ∷ l)
        | false ↦ Permᴰ.trans (Permᴰ.cons refl (insert_variant_perm v l)) (Permᴰ.swap refl refl)
      ]

pub sort_variants_perm : (l : List Variant) → Permᴰ (sort_variants l) l
unfolding sort_variants
sort_variants_perm [] = Permᴰ.nil
sort_variants_perm (v ∷ l) =
    Permᴰ.trans (insert_variant_perm v (sort_variants l)) (Permᴰ.cons refl (sort_variants_perm l))

pub row_weights-perm : {l m : List Variant} → Permᴰ l m → row_weights l ≡ row_weights m
row_weights-perm Permᴰ.nil = refl
row_weights-perm (Permᴰ.cons e p) = ap₂ (λ (v : Variant) n. v.weight + n) e (row_weights-perm p)
row_weights-perm (Permᴰ.swap e f) =
    omega (arith, ap (λ (v : Variant). v.weight) e, ap (λ (v : Variant). v.weight) f)
row_weights-perm (Permᴰ.trans p q) = row_weights-perm p ∙ row_weights-perm q

module _ (p : TargetingRule → Bool) where
  all-insert_rule :
      (r : TargetingRule) (l : List TargetingRule) → all p (insert_rule r l) ≡ (p r && all p l)
  unfolding insert_rule
  all-insert_rule r [] = refl
  all-insert_rule r (q ∷ l) = ground (arith, all-insert_rule r l)

  pub all-sort_rules : (l : List TargetingRule) → all p (sort_rules l) ≡ all p l
  unfolding sort_rules
  all-sort_rules [] = refl
  all-sort_rules (r ∷ l) = all-insert_rule r (sort_rules l) ∙ ap (λ b. p r && b) (all-sort_rules l)

  any-insert_rule :
      (r : TargetingRule) (l : List TargetingRule) → any p (insert_rule r l) ≡ (p r || any p l)
  unfolding insert_rule
  any-insert_rule r [] = refl
  any-insert_rule r (q ∷ l) = ground (arith, any-insert_rule r l)

  pub any-sort_rules : (l : List TargetingRule) → any p (sort_rules l) ≡ any p l
  unfolding sort_rules
  any-sort_rules [] = refl
  any-sort_rules (r ∷ l) = any-insert_rule r (sort_rules l) ∙ ap (λ b. p r || b) (any-sort_rules l)
