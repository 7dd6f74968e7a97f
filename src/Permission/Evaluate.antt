-- ===== src/Permission/Evaluate.antt =====
-- go/permission/evaluate.go
pub mod Verdict
use metap.Prelude.{
  Bool, true, false, not, Option, none, some, List, [], ◌∷◌, String, ◌==◌, ◌&&◌, ◌||◌, any, text_lt,
  if◌then◌else◌,
}
use metap.Prelude.Int.{ltb_ℤ}
use metap.Json.{Json, json_equal, as_string, as_number, as_array}
use metap.Permission.Context.{RequestContext, to_value}
use metap.Permission.Condition.{
  ConditionOp, eq, neq, in_list, not_in, gt, gte, lt, lte, contains, not_contains, unknown,
  PolicyCondition, attribute, all_of, any_of, Conditions, nil, cons, PolicyEffect, allow, deny,
  PolicyRow,
}
use metap.Permission.Resolve.{resolve_value, resolve_attribute}

-- The three answers of `compareOrdering`, 1, -1 and 0; its nil is `none`.
pub data Comparison : Type 0 where
  greater less same : Comparison

abbrev pick : Bool → Bool → Comparison
pick true _ = greater
pick false true = less
pick false false = same

abbrev compare_texts : Json → Json → Option Comparison
compare_texts x y = elim (as_string x) [
  | some s ↦ elim (as_string y) [ some t ↦ some (pick (text_lt t s) (text_lt s t)) | none ↦ none ]
  | none ↦ none
]

-- Numbers first, and texts if one of the two is no number.
unfoldable pub compare_ordering : Json → Json → Option Comparison
compare_ordering actual expected = elim (as_number actual) [
  | some a ↦ elim (as_number expected) [
    | some b ↦ some (pick (ltb_ℤ b a) (ltb_ℤ a b))
    | none ↦ compare_texts actual expected
  ]
  | none ↦ compare_texts actual expected
]

abbrev pub array_contains : List Json → Json → Bool
array_contains xs v = any (λ item. json_equal item v) xs

abbrev is_greater : Option Comparison → Bool
is_greater (some greater) = true
is_greater _ = false

abbrev is_less : Option Comparison → Bool
is_less (some less) = true
is_less _ = false

abbrev is_same : Option Comparison → Bool
is_same (some same) = true
is_same _ = false

-- `ok && p arr` for an array that may have failed to decode.
abbrev decoded : Option (List Json) → (List Json → Bool) → Bool
decoded none p = false
decoded (some xs) p = p xs

unfoldable pub match_operator : ConditionOp → Json → Json → Bool
unfolding compare_ordering json_equal
match_operator eq actual expected = json_equal actual expected
match_operator neq actual expected = not (json_equal actual expected)
match_operator in_list actual expected =
    decoded (as_array expected) (λ xs. array_contains xs actual)
match_operator not_in actual expected =
    decoded (as_array expected) (λ xs. not (array_contains xs actual))
match_operator contains actual expected =
    decoded (as_array actual) (λ xs. array_contains xs expected)
match_operator not_contains actual expected =
    decoded (as_array actual) (λ xs. not (array_contains xs expected))
match_operator gt actual expected = is_greater (compare_ordering actual expected)
match_operator gte actual expected =
    let o = compare_ordering actual expected in is_greater o || is_same o
match_operator lt actual expected = is_less (compare_ordering actual expected)
match_operator lte actual expected =
    let o = compare_ordering actual expected in is_less o || is_same o
match_operator (unknown _) actual expected = false

-- Why a condition failed; the source renders it as a text.
pub data Reason : Type 0 where
  nothing_in_any : Reason
  condition_failed : String → ConditionOp → Json → Json → Reason

pub data ConditionResult : Type 0 where
  passed : ConditionResult
  failed : Reason → ConditionResult

abbrev pub is_passed : ConditionResult → Bool
is_passed passed = true
is_passed (failed _) = false

abbrev pub result_reason : ConditionResult → Option Reason
result_reason passed = none
result_reason (failed r) = some r

unfoldable mutual
  pub evaluate_condition : PolicyCondition → Json → RequestContext → ConditionResult
  evaluate_condition (attribute path op value) subject ctx =
      let actual = resolve_attribute subject path ctx in
      let expected = resolve_value value ctx in
      if match_operator op actual expected
      then passed
      else failed (condition_failed path op expected actual)
  evaluate_condition (all_of cs) subject ctx = evaluate_all cs subject ctx
  evaluate_condition (any_of cs) subject ctx = evaluate_any cs subject ctx nothing_in_any

  pub evaluate_all : Conditions → Json → RequestContext → ConditionResult
  evaluate_all nil subject ctx = passed
  evaluate_all (cons c cs) subject ctx = elim (evaluate_condition c subject ctx) [
    | passed ↦ evaluate_all cs subject ctx
    | failed r ↦ failed r
  ]

  pub evaluate_any : Conditions → Json → RequestContext → Reason → ConditionResult
  evaluate_any nil subject ctx last_failure = failed last_failure
  evaluate_any (cons c cs) subject ctx last_failure = elim (evaluate_condition c subject ctx) [
    | passed ↦ passed
    | failed r ↦ evaluate_any cs subject ctx r
  ]

abbrev is_empty : List String → Bool
is_empty [] = true
is_empty _ = false

-- No roles at all leave the gate open.
unfoldable pub role_gate_passed : List String → Bool → List String → Bool
role_gate_passed policy_roles has_policy_roles caller_roles =
    not has_policy_roles
    || is_empty policy_roles
    || any (λ cr. any (λ pr. cr == pr) policy_roles) caller_roles

-- The value that a row's condition is read against.
unfoldable pub condition_subject : PolicyRow → RequestContext → Option Json → Json
condition_subject p ctx record_subject =
    if p.subject == "record"
    then elim record_subject [ some v ↦ v | none ↦ to_value ctx ]
    else to_value ctx

-- A missing record subject is `none`.
unfoldable pub evaluate_policy_row : PolicyRow → RequestContext → Option Json → Bool
unfolding role_gate_passed condition_subject
evaluate_policy_row p ctx record_subject =
    if not (role_gate_passed p.roles p.has_roles ctx.roles) then false else elim p.condition [
      | none ↦ true
      | some c ↦ is_passed (evaluate_condition c (condition_subject p ctx record_subject) ctx)
    ]

pub data PolicyVerdict : Type 0 where
  verdict_allow verdict_deny no_match : PolicyVerdict

abbrev pub is_allowed : PolicyVerdict → Bool
is_allowed verdict_allow = true
is_allowed _ = false

abbrev pub is_deny : PolicyEffect → Bool
is_deny deny = true
is_deny allow = false

-- The loop over the rows, with `anyAllow`.
unfoldable pub evaluate_from : Bool → List PolicyRow → RequestContext → Option Json → PolicyVerdict
evaluate_from any_allow [] ctx s = if any_allow then verdict_allow else no_match
evaluate_from any_allow (p ∷ ps) ctx s =
    let rest = evaluate_from (evaluate_policy_row p ctx s || any_allow) ps ctx s in
    if evaluate_policy_row p ctx s && is_deny p.effect then verdict_deny else rest

unfoldable pub evaluate_policies : List PolicyRow → RequestContext → Option Json → PolicyVerdict
unfolding evaluate_from
evaluate_policies = evaluate_from false
