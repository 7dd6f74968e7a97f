-- ===== src/Permission/Codec/Roundtrip.antt =====
-- What the JSON form of a condition keeps.
use metap.Prelude.{none, some, ◌≡◌, refl, ap}
use metap.Permission.Condition.{
  ConditionOp, eq, neq, in_list, not_in, gt, gte, lt, lte, contains, not_contains, unknown,
  PolicyValue, literal, from_context, PolicyCondition, attribute, all_of, any_of, Conditions, nil,
  cons,
}
use metap.Permission.Codec.{
  decoded, op_name, op_of_name, marshal_value, marshal_condition, marshal_all, unmarshal_condition,
  unmarshal_items, optional_value,
}

-- A literal is present.
abbrev IsPresent : PolicyValue → Type 0
IsPresent (literal none) = ⊥
IsPresent _ = Unit {0}

-- An unknown operator keeps its text, so it must not be one that is known.
abbrev IsSpelled : ConditionOp → Type 0
IsSpelled (unknown name) = op_of_name name ≡ unknown name
IsSpelled _ = Unit {0}

op_of_name-op_name : (op : ConditionOp) → IsSpelled op → op_of_name (op_name op) ≡ op
op_of_name-op_name eq h = refl
op_of_name-op_name neq h = refl
op_of_name-op_name in_list h = refl
op_of_name-op_name not_in h = refl
op_of_name-op_name gt h = refl
op_of_name-op_name gte h = refl
op_of_name-op_name lt h = refl
op_of_name-op_name lte h = refl
op_of_name-op_name contains h = refl
op_of_name-op_name not_contains h = refl
op_of_name-op_name (unknown name) h = h

abbrev mutual
  pub IsProper : PolicyCondition → Type 0
  IsProper (attribute path op value) = IsSpelled op × IsPresent value
  IsProper (all_of cs) = AllProper cs
  IsProper (any_of cs) = AllProper cs

  pub AllProper : Conditions → Type 0
  AllProper nil = Unit {0}
  AllProper (cons c cs) = IsProper c × AllProper cs

optional_value-marshal_value :
    (value : PolicyValue)
    → IsPresent value
    → optional_value (marshal_value value) ≡ decoded (some value)
unfolding optional_value marshal_value
optional_value-marshal_value (literal none) h = elim h [ ]
optional_value-marshal_value (literal (some v)) h = refl
optional_value-marshal_value (from_context key) h = refl

mutual
  unfolding marshal_condition unmarshal_condition

  unmarshal-marshal :
      (c : PolicyCondition) → IsProper c → unmarshal_condition (marshal_condition c) ≡ decoded c
  unmarshal-marshal (attribute path op value) h =
      rw (optional_value-marshal_value value h.1)
        (ap (λ o. decoded (attribute path o value)) (op_of_name-op_name op h.0))
  unmarshal-marshal (all_of cs) h = rw (unmarshal_items-marshal_all cs h)
  unmarshal-marshal (any_of cs) h = rw (unmarshal_items-marshal_all cs h)

  unmarshal_items-marshal_all :
      (cs : Conditions) → AllProper cs → unmarshal_items (marshal_all cs) ≡ decoded cs
  unmarshal_items-marshal_all nil h = refl
  unmarshal_items-marshal_all (cons c cs) h =
      rw (unmarshal-marshal c h.0, unmarshal_items-marshal_all cs h.1)

-- A condition whose literals are present, and whose unknown operators are not spelled like known
-- ones, is read back as it was written.
pub unmarshal_condition-marshal_condition :
    (c : PolicyCondition) → IsProper c → unmarshal_condition (marshal_condition c) ≡ decoded c
unmarshal_condition-marshal_condition c h = unmarshal-marshal c h
