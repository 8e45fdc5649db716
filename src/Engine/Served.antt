-- ===== src/Engine/Served.antt =====
-- ripcord/engine.py: what `evaluate` serves, and the operators of `_rule_matches`.
use ripcord.Prelude.{
  ℕ, ◌+◌, String, ◌≡◌, refl, Bool, true, false, not, ◌&&◌, ◌⊎◌, inl, inr, Option, none, some, List,
  [], ◌∷◌, arith, is_empty, is_some, eq_iff, Option-cases, Bool-cases, leb, if◌then◌else◌,
}
use mathlib.Core.Path.{subst}
use ripcord.Json.{null}
use ripcord.Engine.Spec.{RuleSpec, VariantSpec, FlagSpec, Evaluation}
use ripcord.Engine.Rules.{Context, get, rule_matches}
use ripcord.Engine.Variants.{
  find_key, find_variant, sort_by_key, first?, last?, walk, pick, choose_variant, total_weight,
}
use ripcord.Engine.Evaluate.{
  off_result, on_result, rule_result, first_match, rollout_result, evaluate, serve,
  context_or_empty,
}
use ripcord.Engine.Weights.{Has, Has-sort}

-- A choice among the variants, or none.
abbrev IsFrom : List VariantSpec → Option VariantSpec → Type 0
IsFrom l none = Unit
IsFrom l (some v) = Has v l

-- An evaluation serves nothing, or the key and the value of one variant of the list.
abbrev pub ServesFrom : List VariantSpec → Evaluation → Type 0
ServesFrom l e =
    ((e.variant ≡ none) × (e.value ≡ null))
    ⊎ ((v : VariantSpec) × Has v l × (e.variant ≡ some v.key) × (e.value ≡ v.value))

IsFrom-cons :
    (v : VariantSpec) (l : List VariantSpec) (o : Option VariantSpec)
    → IsFrom l o
    → IsFrom (v ∷ l) o
IsFrom-cons v l none h = tt
IsFrom-cons v l (some w) h = inr h

IsFrom-if :
    (b : Bool) (l : List VariantSpec) (o p : Option VariantSpec)
    → IsFrom l o
    → IsFrom l p
    → IsFrom l (if b then o else p)
IsFrom-if true l o p h k = h
IsFrom-if false l o p h k = k

find_key-IsFrom : (l : List VariantSpec) (k : String) → IsFrom l (find_key l k)
unfolding find_key
find_key-IsFrom [] k = tt
find_key-IsFrom (v ∷ l) k =
    IsFrom-if _ (v ∷ l) (some v) _ (inl refl) (IsFrom-cons v l _ (find_key-IsFrom l k))

walk-IsFrom : (b t c : ℕ) (l : List VariantSpec) → IsFrom l (walk b t c l)
unfolding walk
walk-IsFrom b t c [] = tt
walk-IsFrom b t c (v ∷ l) =
    IsFrom-if _ (v ∷ l) (some v) _ (inl refl) (IsFrom-cons v l _ (walk-IsFrom b t (c + v.weight) l))

last?-IsFrom : (l : List VariantSpec) → IsFrom l (last? l)
unfolding last?
last?-IsFrom [] = tt
last?-IsFrom (v ∷ []) = inl refl
last?-IsFrom (v ∷ w ∷ l) = IsFrom-cons v (w ∷ l) _ (last?-IsFrom (w ∷ l))

serve-ServesFrom :
    (l : List VariantSpec) (enabled : Bool) (reason : String) (o : Option VariantSpec)
    → IsFrom l o
    → ServesFrom l (serve enabled reason o)
unfolding serve
serve-ServesFrom l enabled reason none h = inl (refl, refl)
serve-ServesFrom l enabled reason (some v) h = inr (v, h, refl, refl)

IsFrom-sort :
    (l : List VariantSpec) (o : Option VariantSpec) → IsFrom (sort_by_key l) o → IsFrom l o
IsFrom-sort l none h = tt
IsFrom-sort l (some v) h = Has-sort v l h

first?-IsFrom : (l : List VariantSpec) → IsFrom l (first? l)
unfolding first?
first?-IsFrom [] = tt
first?-IsFrom (v ∷ l) = inl refl

walk_or_last-IsFrom :
    (l : List VariantSpec) (o : Option VariantSpec)
    → IsFrom l o
    → IsFrom l (elim o [ some v ↦ some v | none ↦ last? l ])
walk_or_last-IsFrom l none h = last?-IsFrom l
walk_or_last-IsFrom l (some v) h = h

pick-IsFrom : (l : List VariantSpec) (b : ℕ) → IsFrom l (pick l b)
unfolding pick
pick-IsFrom l b =
    IsFrom-if (leb (total_weight l) 0) l _ _ (first?-IsFrom l)
      (walk_or_last-IsFrom l _ (walk-IsFrom b (total_weight l) 0 l))

module _ (md5 : String → String) (flag : FlagSpec) (user : String) where
  choose_variant-IsFrom : IsFrom flag.variants (choose_variant md5 flag user)
  unfolding choose_variant
  choose_variant-IsFrom =
      IsFrom-if (is_empty flag.variants) flag.variants none _ tt
        (IsFrom-sort flag.variants _ (pick-IsFrom (sort_by_key flag.variants) _))

  find_variant-IsFrom : (key : Option String) → IsFrom flag.variants (find_variant flag key)
  unfolding find_variant
  find_variant-IsFrom none = tt
  find_variant-IsFrom (some k) = find_key-IsFrom flag.variants k

  off_result-ServesFrom : (reason : String) → ServesFrom flag.variants (off_result flag reason)
  unfolding off_result
  off_result-ServesFrom reason =
      serve-ServesFrom flag.variants false reason _ (find_variant-IsFrom flag.off_variant)

  ServesFrom-if :
      (b : Bool) (e f : Evaluation)
      → ServesFrom flag.variants e
      → ServesFrom flag.variants f
      → ServesFrom flag.variants (if b then e else f)
  ServesFrom-if true e f h k = h
  ServesFrom-if false e f h k = k

  on_result-ServesFrom :
      (reason : String) → ServesFrom flag.variants (on_result md5 flag user reason)
  unfolding on_result
  on_result-ServesFrom reason =
      ServesFrom-if _ _ _ (serve-ServesFrom flag.variants true reason _ choose_variant-IsFrom)
        (serve-ServesFrom flag.variants true reason none tt)

  rule_result-ServesFrom :
      (rule : RuleSpec) → ServesFrom flag.variants (rule_result md5 flag user rule)
  unfolding rule_result
  rule_result-ServesFrom rule = elim (Option-cases (find_variant flag rule.variant)) [
    | inl stale ↦ rw (stale, rule_result) (on_result-ServesFrom "targeting_match")
    | inr (v, pinned) ↦
        rw (pinned, rule_result)
          (serve-ServesFrom flag.variants true "targeting_match" (some v)
            (rw pinned at (find_variant-IsFrom rule.variant)))
  ]

  first_match-ServesFrom :
      (rules : List RuleSpec) (context : Context) (e : Evaluation)
      → first_match md5 flag user rules context ≡ some e
      → ServesFrom flag.variants e
  unfolding first_match
  first_match-ServesFrom [] context e h = absurd (cc)
  first_match-ServesFrom (rule ∷ rules) context e h =
      elim (Bool-cases (rule_matches rule context)) [
        | inl matches ↦
            let first : rule_result md5 flag user rule ≡ e = ground arith in
            subst (ServesFrom flag.variants) first (rule_result-ServesFrom rule)
        | inr fails ↦ first_match-ServesFrom rules context e (ground arith)
      ]

  -- On every branch an evaluation serves nothing, or the key and the value of one of the flag's own
  -- variants.
  pub evaluate-ServesFrom :
      (context : Option Context) → ServesFrom flag.variants (evaluate md5 flag user context)
  unfolding evaluate rollout_result
  evaluate-ServesFrom context =
      ServesFrom-if (not flag.enabled) _ _ (off_result-ServesFrom "flag_disabled")
        (elim (Option-cases (first_match md5 flag user flag.rules (context_or_empty context))) [
          | inl no_match ↦ rw no_match (
              ServesFrom-if _ _ _ (on_result-ServesFrom "rollout_included")
                (off_result-ServesFrom "rollout_excluded"))
          | inr (e, match) ↦ rw match (first_match-ServesFrom flag.rules _ e match)
        ])

-- The operators of a rule: `not_in` and `neq` match exactly when the attribute is there and their
-- opposites do not match (`neq` wants a value to compare with too), and `eq` implies `in`.
pub rule_matches_operators :
    (attribute : String) (values : List String) (variant : Option String) (context : Context)
    → (rule_matches
          (record {
            attribute = attribute;
            operator = "not_in";
            values = values;
            variant = variant;
          })
          context
        ≡ (is_some (get context attribute)
            && not (
                rule_matches
                  (record {
                    attribute = attribute;
                    operator = "in";
                    values = values;
                    variant = variant;
                  })
                  context)))
      × (rule_matches
            (record { attribute = attribute; operator = "neq"; values = values; variant = variant })
            context
          ≡ (is_some (get context attribute)
              && (not (is_empty values)
                  && not (
                      rule_matches
                        (record {
                          attribute = attribute;
                          operator = "eq";
                          values = values;
                          variant = variant;
                        })
                        context))))
      × ((rule_matches
              (record {
                attribute = attribute;
                operator = "eq";
                values = values;
                variant = variant;
              })
              context
            && not (
                rule_matches
                  (record {
                    attribute = attribute;
                    operator = "in";
                    values = values;
                    variant = variant;
                  })
                  context))
          ≡ false)
unfolding rule_matches
rule_matches_operators attribute [] variant context = ground arith
rule_matches_operators attribute (v ∷ values) variant context =
    elim (Option-cases (get context attribute)) [
      | inl e ↦ rw e (ground arith)
      | inr (a, e) ↦ rw e (ground (arith, eq_iff a v, eq_iff v a))
    ]
