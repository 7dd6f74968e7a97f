-- ===== src/Permission/Explain.antt =====
-- go/permission/policyexplainer.go
pub mod Agreement
use metap.Prelude.{
  Bool, true, false, not, Option, none, some, List, [], ◌∷◌, String, ◌≡◌, ◌&&◌, ◌||◌, if◌then◌else◌,
}
use metap.Json.{Json}
use metap.Permission.Context.{RequestContext}
use metap.Permission.Condition.{PolicyEffect, PolicyRow}
use metap.Permission.Evaluate.{
  Reason, ConditionResult, passed, failed, role_gate_passed, evaluate_condition, condition_subject,
  is_deny,
}

pub data Gate : Type 0 where
  gate_open gate_passed gate_failed : Gate

-- An absent reason is `none`.
pub record PolicyTraceEntry : Type 0 where
  pub policy_id : String
  pub effect : PolicyEffect
  pub role_gate : Gate
  pub condition_gate : Gate
  pub condition_reason : Option Reason

pub record PolicyExplanation : Type 0 where
  pub allowed : Bool
  pub policies_considered : List PolicyTraceEntry

abbrev is_open_gate : Gate → Bool
is_open_gate gate_failed = false
is_open_gate _ = true

unfoldable pub matched : PolicyTraceEntry → Bool
matched e = is_open_gate e.role_gate && is_open_gate e.condition_gate

abbrev none_listed : List String → Bool
none_listed [] = true
none_listed _ = false

abbrev has_no_roles : PolicyRow → Bool
has_no_roles p = not p.has_roles || none_listed p.roles

abbrev role_gate_of : Bool → Bool → Gate
role_gate_of true passes = gate_open
role_gate_of false true = gate_passed
role_gate_of false false = gate_failed

abbrev traced : PolicyRow → Gate → Gate → Option Reason → PolicyTraceEntry
traced p role cond reason = record {
  policy_id = p.id;
  effect = p.effect;
  role_gate = role;
  condition_gate = cond;
  condition_reason = reason;
}

abbrev trace_result : PolicyRow → Gate → ConditionResult → PolicyTraceEntry
trace_result p role passed = traced p role gate_passed none
trace_result p role (failed reason) = traced p role gate_failed (some reason)

-- The entry of one row.
unfoldable pub trace_row : PolicyRow → RequestContext → Option Json → PolicyTraceEntry
trace_row p ctx subject =
    let role_passed = role_gate_passed p.roles p.has_roles ctx.roles in
    let role = role_gate_of (has_no_roles p) role_passed in
    if not role_passed then traced p role gate_open none else elim p.condition [
      | none ↦ traced p role gate_open none
      | some c ↦ trace_result p role (evaluate_condition c (condition_subject p ctx subject) ctx)
    ]

unfoldable pub trace_rows : List PolicyRow → RequestContext → Option Json → List PolicyTraceEntry
trace_rows [] ctx subject = []
trace_rows (p ∷ ps) ctx subject = trace_row p ctx subject ∷ trace_rows ps ctx subject

-- The loop over the entries, with its two flags.
unfoldable pub allowed_from : Bool → Bool → List PolicyTraceEntry → Bool
allowed_from deny allow [] = not deny && allow
allowed_from deny allow (e ∷ es) =
    let hit = matched e in
    allowed_from (deny || (hit && is_deny e.effect)) (allow || (hit && not (is_deny e.effect))) es

unfoldable pub explain_policies : List PolicyRow → RequestContext → Option Json → PolicyExplanation
explain_policies [] ctx subject = record { allowed = true; policies_considered = [] }
explain_policies (p ∷ ps) ctx subject =
    let entries = trace_rows (p ∷ ps) ctx subject in
    record { allowed = allowed_from false false entries; policies_considered = entries }
