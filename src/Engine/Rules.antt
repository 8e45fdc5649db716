-- ===== src/Engine/Rules.antt =====
-- ripcord/engine.py: `_rule_matches`. A context is the list of its entries.
use ripcord.Prelude.{
  String, Bool, false, not, Option, none, some, List, [], ◌∷◌, ◌==◌, is_in, if◌then◌else◌,
}
use ripcord.Engine.Spec.{RuleSpec}

abbrev pub Context : Type 0
Context = List (String × String)

-- `context.get(attribute)`
unfoldable pub get : Context → String → Option String
get [] k = none
get ((j, v) ∷ rest) k = if j == k then some v else get rest k

-- `bool(values) and actual == values[0]`
unfoldable pub eq_first : String → List String → Bool
eq_first actual [] = false
eq_first actual (v ∷ _) = actual == v

-- `bool(values) and actual != values[0]`
unfoldable pub ne_first : String → List String → Bool
ne_first actual [] = false
ne_first actual (v ∷ _) = not (actual == v)

unfoldable pub operator_test : String → String → List String → Bool
unfolding eq_first ne_first
operator_test operator actual values =
    if operator == "in"
    then is_in actual values
    else if operator == "not_in"
    then not (is_in actual values)
    else if operator == "eq"
    then eq_first actual values
    else if operator == "neq"
    then ne_first actual values
    else false

unfoldable pub rule_matches : RuleSpec → Context → Bool
unfolding operator_test get
rule_matches rule context = elim (get context rule.attribute) [
  | none ↦ false
  | some actual ↦ operator_test rule.operator actual rule.values
]
