-- ===== src/Services/Ordered.antt =====
-- ripcord/services.py and ripcord/models.py: the payload that a change announces for a flag whose rules are
-- listed by priority.
use ripcord.Prelude.{
  String, ◌≡◌, refl, ap, ◌∙◌, sym, Bool, true, ◌&&◌, List, [], ◌∷◌, arith, str_le, str_le_total,
}
use ripcord.Json.{int_le}
use ripcord.Models.{
  Flag, TargetingRule, Variant, loaded, sort_rules, insert_rule, sort_variants, insert_variant,
}
use ripcord.Cache.System.{Relation}
use ripcord.Services.Payload.{Codec, flag_payload, flag_json}

abbrev rule_before : TargetingRule → List TargetingRule → Bool
rule_before r [] = true
rule_before r (q ∷ _) = int_le r.priority q.priority

-- Each rule's priority is at most the next one's.
abbrev pub by_priority : List TargetingRule → Bool
by_priority [] = true
by_priority (r ∷ rules) = rule_before r rules && by_priority rules

insert_rule-first :
    (r : TargetingRule) (rules : List TargetingRule)
    → rule_before r rules ≡ true
    → insert_rule r rules ≡ r ∷ rules
unfolding insert_rule
insert_rule-first r [] h = refl
insert_rule-first r (q ∷ rules) h = rw h refl

sort_rules-ordered :
    (rules : List TargetingRule) → by_priority rules ≡ true → sort_rules rules ≡ rules
unfolding sort_rules
sort_rules-ordered [] h = refl
sort_rules-ordered (r ∷ rules) h =
    ap (insert_rule r) (sort_rules-ordered rules (ground arith))
    ∙ insert_rule-first r rules (ground arith)

abbrev variant_before : Variant → List Variant → Bool
variant_before v [] = true
variant_before v (w ∷ _) = str_le v.key w.key

abbrev by_key : List Variant → Bool
by_key [] = true
by_key (v ∷ variants) = variant_before v variants && by_key variants

variant_before-insert :
    (w v : Variant) (l : List Variant)
    → str_le w.key v.key ≡ true
    → variant_before w l ≡ true
    → variant_before w (insert_variant v l) ≡ true
unfolding insert_variant
variant_before-insert w v [] h k = h
variant_before-insert w v (x ∷ l) h k = ground arith

by_key-insert :
    (v : Variant) (l : List Variant) → by_key l ≡ true → by_key (insert_variant v l) ≡ true
unfolding insert_variant
by_key-insert v [] h = refl
by_key-insert v (w ∷ l) h =
    ground (arith, str_le_total v.key w.key, variant_before-insert w v l, by_key-insert v l)

by_key-sort : (l : List Variant) → by_key (sort_variants l) ≡ true
unfolding sort_variants
by_key-sort [] = refl
by_key-sort (v ∷ l) = by_key-insert v (sort_variants l) (by_key-sort l)

insert_variant-first :
    (v : Variant) (l : List Variant) → variant_before v l ≡ true → insert_variant v l ≡ v ∷ l
unfolding insert_variant
insert_variant-first v [] h = refl
insert_variant-first v (w ∷ l) h = rw h refl

sort_variants-ordered : (l : List Variant) → by_key l ≡ true → sort_variants l ≡ l
unfolding sort_variants
sort_variants-ordered [] h = refl
sort_variants-ordered (v ∷ l) h =
    ap (insert_variant v) (sort_variants-ordered l (ground arith))
    ∙ insert_variant-first v l (ground arith)

-- The payload shows the variants by key and the rules as they are listed.
pub flag_payload-loaded :
    (codec : Codec) (flag : Flag)
    → by_priority flag.rules ≡ true
    → flag_payload codec (loaded flag) ≡ flag_payload codec flag
unfolding flag_payload flag_json loaded
flag_payload-loaded codec flag h =
    rw
      (
        flag_payload,
        flag_json,
        loaded,
        codec.flag_id-loaded flag,
        codec.created_at-loaded flag,
        codec.updated_at-loaded flag,
        sort_rules-ordered flag.rules h,
        sort_variants-ordered (sort_variants flag.variants) (by_key-sort flag.variants),
      )
      refl

-- A change of a flag whose rules are listed by priority, and the table's entry for it.
abbrev pub Ordered : Codec → Relation
Ordered codec key p q =
    (flag : Flag) × (by_priority flag.rules ≡ true)
    × (p ≡ flag_payload codec flag)
    × (q ≡ flag_payload codec (loaded flag))

-- The same of the changes of one flag only.
abbrev pub OrderedAt : Codec → String → Relation
OrderedAt codec k key p q = key ≡ k → Ordered codec key p q

pub Ordered-exact : (codec : Codec) (key p q : String) → Ordered codec key p q → p ≡ q
Ordered-exact codec key p q (flag, h, told, loads) =
    told ∙ sym (flag_payload-loaded codec flag h) ∙ sym loads
