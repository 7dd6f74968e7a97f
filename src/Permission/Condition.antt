-- ===== src/Permission/Condition.antt =====
-- The types of go/permission/condition.go and go/permission/policystore.go.
use metap.Prelude.{Bool, Option, List, String}
use metap.Json.{Json}

-- `unknown` is any other text: the type of the source is a string.
pub data ConditionOp : Type 0 where
  eq neq in_list not_in gt gte lt lte contains not_contains : ConditionOp
  unknown : String → ConditionOp

-- A literal that is missing is `none`.
pub data PolicyValue : Type 0 where
  literal : Option Json → PolicyValue
  from_context : String → PolicyValue

-- Exactly one of the three variants.
mutual
  pub data PolicyCondition : Type 0 where
    attribute : String → ConditionOp → PolicyValue → PolicyCondition
    all_of : Conditions → PolicyCondition
    any_of : Conditions → PolicyCondition

  pub data Conditions : Type 0 where
    nil : Conditions
    cons : PolicyCondition → Conditions → Conditions

pub data PolicyEffect : Type 0 where
  allow deny : PolicyEffect

-- An empty `field` is an absent one.
pub record PolicyRow : Type 0 where
  pub id : String
  pub tenant_id : String
  pub entity : String
  pub action : String
  pub field : String
  pub subject : String
  pub roles : List String
  pub has_roles : Bool
  pub condition : Option PolicyCondition
  pub created_by : Option String
  pub effect : PolicyEffect
