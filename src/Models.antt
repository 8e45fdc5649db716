-- ===== src/Models.antt =====
-- ripcord/models.py: flags, their rules and variants, and the audit log. Row ids, foreign keys and
-- the two time stamps of a flag are the database's: nothing that is modelled here reads them.
use ripcord.Prelude.{ℕ, String, Bool, Option, List, [], ◌∷◌, if◌then◌else◌, str_le}
use ripcord.Prelude.Dict.{Dict}
use ripcord.Json.{ℤ, Json, int_le}

pub record TargetingRule : Type 0 where
  pub attribute : String
  pub operator : String
  pub values : List String
  pub priority : ℤ
  pub variant : Option String

pub record Variant : Type 0 where
  pub key : String
  pub value : Json
  pub weight : ℕ

pub record Flag : Type 0 where
  pub key : String
  pub name : String
  pub description : Option String
  pub enabled : Bool
  pub rollout_percentage : ℕ
  pub off_variant : Option String
  pub version : ℕ
  pub rules : List TargetingRule
  pub variants : List Variant

pub record AuditLog : Type 0 where
  pub flag_key : String
  pub action : String
  pub actor : String
  pub details : Option (Dict Json)

-- `order_by="TargetingRule.priority"`; rows of one priority keep the order of their ids.
unfoldable pub insert_rule : TargetingRule → List TargetingRule → List TargetingRule
insert_rule r [] = r ∷ []
insert_rule r (q ∷ qs) = if int_le r.priority q.priority then r ∷ q ∷ qs else q ∷ insert_rule r qs

unfoldable pub sort_rules : List TargetingRule → List TargetingRule
unfolding insert_rule
sort_rules [] = []
sort_rules (r ∷ rs) = insert_rule r (sort_rules rs)

-- `order_by="Variant.key"`
unfoldable pub insert_variant : Variant → List Variant → List Variant
insert_variant v [] = v ∷ []
insert_variant v (w ∷ ws) = if str_le v.key w.key then v ∷ w ∷ ws else w ∷ insert_variant v ws

unfoldable pub sort_variants : List Variant → List Variant
unfolding insert_variant
sort_variants [] = []
sort_variants (v ∷ vs) = insert_variant v (sort_variants vs)

-- A flag as a query of a fresh session loads it: both relationships in their declared order.
unfoldable pub loaded : Flag → Flag
unfolding sort_rules sort_variants
loaded flag = record flag { rules = sort_rules flag.rules; variants = sort_variants flag.variants }
