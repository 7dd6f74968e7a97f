-- ===== src/Permission/Snapshot.antt =====
-- go/permission/permissionsnapshot.go
pub mod Grouping
pub mod Stability
pub mod Groups
pub mod Masking
use metap.Prelude.{
  Bool, true, false, not, Option, none, some, List, [], ◌∷◌, ◌++◌, String, ◌==◌, ◌&&◌, ◌||◌, lookup,
  Assoc, keep, mem_text, if◌then◌else◌,
}
use metap.Json.{Json, JsonObject, object}
use metap.Permission.Context.{
  RequestContext, EntityAction, transition, action_name, transition_action_policy, is_admin,
  scope_permits, to_value, PermissionDecision, permitted, forbidden, forbidden_field,
}
use metap.Permission.Condition.{PolicyRow}
use metap.Permission.Evaluate.{
  role_gate_passed, evaluate_condition, is_passed, evaluate_policies, is_allowed, is_deny,
}
use metap.Permission.Resolve.{required_relation_fields}
use Grouping.{push_at, group_at}

pub record PermissionSnapshot : Type 0 where
  pub field_policies : List PolicyRow
  pub record_policies_by_action : Assoc (List PolicyRow)
  pub context_policies_by_action : Assoc (List PolicyRow)

abbrev pub no_policies : PermissionSnapshot
no_policies = record {
  field_policies = [];
  record_policies_by_action = [];
  context_policies_by_action = [];
}

-- The three tests of one round of the loop.
unfoldable pub add_row : PermissionSnapshot → PolicyRow → PermissionSnapshot
add_row s row = record {
  field_policies = if row.field == "" then s.field_policies else s.field_policies ++ row ∷ [];
  record_policies_by_action =
      if row.field == "" && row.subject == "record"
      then push_at row.action row s.record_policies_by_action
      else s.record_policies_by_action;
  context_policies_by_action =
      if row.field == "" && row.subject == "context"
      then push_at row.action row s.context_policies_by_action
      else s.context_policies_by_action;
}

unfoldable pub add_rows : PermissionSnapshot → List PolicyRow → PermissionSnapshot
add_rows s [] = s
add_rows s (row ∷ rows) = add_rows (add_row s row) rows

unfoldable pub permission_snapshot_from_rows : List PolicyRow → PermissionSnapshot
permission_snapshot_from_rows rows = add_rows no_policies rows

unfoldable pub context_verdict : List PolicyRow → RequestContext → PermissionDecision
context_verdict rows ctx =
    if is_allowed (evaluate_policies rows ctx none) then permitted else forbidden

unfoldable pub can_perform_entity_action :
    PermissionSnapshot → RequestContext → String → EntityAction → PermissionDecision
can_perform_entity_action s ctx entity action =
    if not (scope_permits ctx entity action)
    then forbidden
    else if is_admin ctx
    then permitted
    else context_verdict (group_at (action_name action) s.context_policies_by_action) ctx

unfoldable pub can_transition_action :
    PermissionSnapshot → RequestContext → String → String → PermissionDecision
can_transition_action s ctx entity action =
    if not (scope_permits ctx entity transition)
    then forbidden
    else if is_admin ctx
    then permitted
    else context_verdict
        (group_at (action_name transition) s.context_policies_by_action
          ++ group_at (transition_action_policy action) s.context_policies_by_action)
        ctx

unfoldable pub get_record_policies : PermissionSnapshot → EntityAction → List PolicyRow
get_record_policies s action = group_at (action_name action) s.record_policies_by_action

unfoldable pub snapshot_relation_fields : PermissionSnapshot → EntityAction → List String
unfolding get_record_policies required_relation_fields
snapshot_relation_fields s action = required_relation_fields (get_record_policies s action)

pub data MatchStability : Type 0 where
  always never record_dependent : MatchStability

unfoldable pub match_stability_of : PolicyRow → RequestContext → MatchStability
match_stability_of p ctx =
    if not (role_gate_passed p.roles p.has_roles ctx.roles) then never else elim p.condition [
      | none ↦ always
      | some c ↦
          if p.subject == "record"
          then record_dependent
          else if is_passed (evaluate_condition c (to_value ctx) ctx)
          then always
          else never
    ]

pub record Flags : Type 0 where
  pub always_allow : Bool
  pub always_deny : Bool
  pub steerable_allow : Bool
  pub steerable_deny : Bool

abbrev pub raise : Bool → MatchStability → Flags → Flags
raise is_deny never f = f
raise true always f = record f { always_deny = true }
raise false always f = record f { always_allow = true }
raise true record_dependent f = record f { steerable_deny = true }
raise false record_dependent f = record f { steerable_allow = true }

unfoldable pub flags_from : Flags → List PolicyRow → RequestContext → Flags
flags_from f [] ctx = f
flags_from f (p ∷ ps) ctx =
    flags_from (raise (is_deny p.effect) (match_stability_of p ctx) f) ps ctx

abbrev pub no_flags : Flags
no_flags = record {
  always_allow = false;
  always_deny = false;
  steerable_allow = false;
  steerable_deny = false;
}

unfoldable pub verdict_is_record_dependent : List PolicyRow → RequestContext → Bool
verdict_is_record_dependent policies ctx =
    let f = flags_from no_flags policies ctx in
    if f.always_deny
    then false
    else if f.steerable_deny
    then true
    else not f.always_allow && f.steerable_allow

unfoldable pub record_access_is_state_dependent :
    PermissionSnapshot → RequestContext → EntityAction → Bool
record_access_is_state_dependent s ctx action =
    if is_admin ctx then false else verdict_is_record_dependent (get_record_policies s action) ctx

-- The field policies of one action, by their field.
unfoldable pub by_field : String → List PolicyRow → Assoc (List PolicyRow) → Assoc (List PolicyRow)
by_field action [] m = m
by_field action (p ∷ ps) m =
    by_field action ps
      (if not (p.action == action) || p.field == "" then m else push_at p.field p m)

unfoldable dependent_fields : Assoc (List PolicyRow) → RequestContext → List String
dependent_fields [] ctx = []
dependent_fields ((field, policies) ∷ m) ctx =
    let rest = dependent_fields m ctx in
    if verdict_is_record_dependent policies ctx then field ∷ rest else rest

-- The set is the list of its members.
unfoldable pub record_state_dependent_read_fields :
    PermissionSnapshot → RequestContext → List String
unfolding dependent_fields
record_state_dependent_read_fields s ctx =
    if is_admin ctx then [] else dependent_fields (by_field "read" s.field_policies []) ctx

-- `!hasPolicies || EvaluatePolicies(...).IsAllowed()`
abbrev pub open_group : Option (List PolicyRow) → RequestContext → Option Json → Bool
open_group none ctx subject = true
open_group (some policies) ctx subject = is_allowed (evaluate_policies policies ctx subject)

unfoldable pub readable : Assoc (List PolicyRow) → RequestContext → JsonObject → String → Bool
readable groups ctx whole key = open_group (lookup key groups) ctx (some (object whole))

unfoldable pub filter_readable_fields :
    PermissionSnapshot → RequestContext → JsonObject → JsonObject
filter_readable_fields s ctx r =
    if is_admin ctx
    then r
    else keep (λ e. readable (by_field "read" s.field_policies []) ctx r e.0) r

abbrev pub object_of : Option JsonObject → Option Json
object_of none = none
object_of (some r) = some (object r)

unfoldable pub writable :
    Assoc (List PolicyRow) → RequestContext → Option JsonObject → String → Bool
writable groups ctx existing field = open_group (lookup field groups) ctx (object_of existing)

unfoldable pub writable_fields :
    PermissionSnapshot → RequestContext → List String → Option JsonObject → List String
writable_fields s ctx names existing =
    if is_admin ctx
    then names
    else keep (writable (by_field "write" s.field_policies []) ctx existing) names

unfoldable pub first_unwritable : List String → List String → PermissionDecision
first_unwritable writable_set [] = permitted
first_unwritable writable_set (f ∷ fs) =
    let rest = first_unwritable writable_set fs in
    if mem_text f writable_set then rest else forbidden_field f

unfoldable pub assert_writable_fields :
    PermissionSnapshot → RequestContext → List String → Option JsonObject → PermissionDecision
assert_writable_fields s ctx payload existing =
    if is_admin ctx
    then permitted
    else first_unwritable (writable_fields s ctx payload existing) payload

abbrev none_at_all : List PolicyRow → Bool
none_at_all [] = true
none_at_all _ = false

unfoldable pub can_perform_record_condition :
    PermissionSnapshot → RequestContext → JsonObject → EntityAction → PermissionDecision
can_perform_record_condition s ctx r action =
    let policies = get_record_policies s action in
    if is_admin ctx || none_at_all policies
    then permitted
    else if is_allowed (evaluate_policies policies ctx (some (object r)))
    then permitted
    else forbidden
