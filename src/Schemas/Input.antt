-- ===== src/Schemas/Input.antt =====
-- ripcord/schemas.py: the request bodies.
use ripcord.Prelude.{ℕ, String, Bool, Option, List}
use ripcord.Json.{ℤ, Json}

-- `Operator`, with its values.
pub data Operator : Type 0 where
  in_ not_in eq neq : Operator

unfoldable pub operator_value : Operator → String
operator_value in_ = "in"
operator_value not_in = "not_in"
operator_value eq = "eq"
operator_value neq = "neq"

pub record VariantIn : Type 0 where
  pub key : String
  pub value : Json
  pub weight : ℕ

pub record TargetingRuleIn : Type 0 where
  pub attribute : String
  pub operator : Operator
  pub values : List String
  pub priority : ℤ
  pub variant : Option String

pub record FlagCreate : Type 0 where
  pub key : String
  pub name : String
  pub description : Option String
  pub enabled : Bool
  pub rollout_percentage : ℕ
  pub rules : List TargetingRuleIn
  pub variants : List VariantIn
  pub off_variant : Option String

-- `off_variant_given` is `"off_variant" in model_fields_set`.
pub record FlagUpdate : Type 0 where
  pub name : Option String
  pub description : Option String
  pub enabled : Option Bool
  pub rollout_percentage : Option ℕ
  pub rules : Option (List TargetingRuleIn)
  pub variants : Option (List VariantIn)
  pub off_variant : Option String
  pub off_variant_given : Bool
  pub version : ℕ
