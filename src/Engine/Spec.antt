-- ===== src/Engine/Spec.antt =====
-- The engine's inputs and its result: ripcord/engine.py, `RuleSpec`, `VariantSpec`, `FlagSpec`,
-- `Evaluation`. Weights and percentages are naturals: the schemas and the database's CHECK
-- constraints admit no negative one.
use ripcord.Prelude.{ℕ, String, Bool, not, Option, List, is_empty}
use ripcord.Json.{Json}

pub record RuleSpec : Type 0 where
  pub attribute : String
  pub operator : String
  pub values : List String
  pub variant : Option String

pub record VariantSpec : Type 0 where
  pub key : String
  pub value : Json
  pub weight : ℕ

pub record FlagSpec : Type 0 where
  pub key : String
  pub enabled : Bool
  pub rollout_percentage : ℕ
  pub rules : List RuleSpec
  pub variants : List VariantSpec
  pub off_variant : Option String

-- `bool(self.variants)`
abbrev pub is_multivariate : FlagSpec → Bool
is_multivariate flag = not (is_empty flag.variants)

-- `value` is `null` where the source has None.
pub record Evaluation : Type 0 where
  pub enabled : Bool
  pub reason : String
  pub variant : Option String
  pub value : Json
