-- ===== src/Workflow.antt =====
-- go/workflow/workflow.go, but its reads and writes of the database, which stand with the record
-- store of Crud.
pub mod Laws
use metap.Prelude.{
  Bool, true, false, Option, none, some, List, [], ◌∷◌, ◌++◌, String, ◌==◌, ◌&&◌, ◌||◌, lookup,
  insert, Assoc, any, has_prefix, map, if◌then◌else◌,
}
use metap.Json.{Json, str, JsonObject, object, as_string}
use metap.Metadata.Entity.{EntityDefinition, EntityWorkflow, WorkflowTransition}
use metap.Permission.Context.{RequestContext}
use metap.Permission.Condition.{
  PolicyCondition, attribute, all_of, any_of, Conditions, nil, cons, PolicyValue,
}
use metap.Permission.Evaluate.{Reason, ConditionResult, passed, failed, evaluate_condition}
use metap.Permission.Resolve.{resolve_value, workflow_attribute_prefix}

abbrev explicit_status : EntityWorkflow → Option Json → String
explicit_status w none = w.initial_state
explicit_status w (some raw) = elim (as_string raw) [ some s ↦ s | none ↦ w.initial_state ]

unfoldable pub get_initial_status : EntityDefinition → JsonObject → Option String
get_initial_status entity data_ = elim entity.workflow [
  | none ↦ none
  | some w ↦ some (explicit_status w (lookup w.state_field data_))
]

unfoldable pub first_transition :
    String → String → List WorkflowTransition → Option WorkflowTransition
first_transition action source [] = none
first_transition action source (t ∷ ts) =
    let rest = first_transition action source ts in
    if t.action == action && t.source == source then some t else rest

unfoldable pub find_transition : EntityDefinition → String → String → Option WorkflowTransition
unfolding first_transition
find_transition entity action source = elim entity.workflow [
  | none ↦ none
  | some w ↦ first_transition action source w.transitions
]

-- The text of a refusal: the message of the transition, or the reason of the evaluator.
pub data WorkflowError : Type 0 where
  message : String → WorkflowError
  because : Reason → WorkflowError

abbrev refusal : String → ConditionResult → Option WorkflowError
refusal m passed = none
refusal m (failed r) = if m == "" then some (because r) else some (message m)

abbrev run_condition :
    Option PolicyCondition → String → JsonObject → RequestContext → Option WorkflowError
run_condition none m data_ ctx = none
run_condition (some c) m data_ ctx = refusal m (evaluate_condition c (object data_) ctx)

-- No error if there is no guard or it passes.
unfoldable pub run_guard : WorkflowTransition → JsonObject → RequestContext → Option WorkflowError
run_guard t data_ ctx = run_condition t.guard t.guard_message data_ ctx

unfoldable pub run_validator :
    WorkflowTransition → JsonObject → RequestContext → Option WorkflowError
run_validator t next_data ctx = run_condition t.validator t.validator_message next_data ctx

-- Every leaf attribute, depth first.
unfoldable mutual
  pub condition_attributes : PolicyCondition → List String
  condition_attributes (attribute path _ _) = path ∷ []
  condition_attributes (all_of cs) = attributes_of_each cs
  condition_attributes (any_of cs) = attributes_of_each cs

  pub attributes_of_each : Conditions → List String
  attributes_of_each nil = []
  attributes_of_each (cons c cs) = condition_attributes c ++ attributes_of_each cs

unfoldable pub condition_uses_prefix : Option PolicyCondition → String → Bool
unfolding condition_attributes
condition_uses_prefix none prefix = false
condition_uses_prefix (some c) prefix = any (λ a. has_prefix a prefix) (condition_attributes c)

unfoldable pub uses_workflow_context : EntityDefinition → Bool
unfolding condition_uses_prefix
uses_workflow_context entity = elim entity.workflow [
  | none ↦ false
  | some w ↦
      any
        (λ t.
          condition_uses_prefix t.guard workflow_attribute_prefix
          || condition_uses_prefix t.validator workflow_attribute_prefix)
        w.transitions
]

abbrev pub workflow_context_key : String
workflow_context_key = "$workflow"

-- The actors, as an object of texts; nil is an empty map.
abbrev actors_json : Assoc String → Json
actors_json actors = object (("actors", object (map (λ e. (e.0, str e.1)) actors)) ∷ [])

unfoldable pub with_workflow_context : JsonObject → Assoc String → JsonObject
with_workflow_context data_ actors = insert workflow_context_key (actors_json actors) data_

unfoldable pub set_each : Assoc PolicyValue → JsonObject → RequestContext → JsonObject
set_each [] data_ ctx = data_
set_each ((name, value) ∷ rest) data_ ctx =
    set_each rest (insert name (resolve_value value ctx) data_) ctx

unfoldable pub apply_set_fields : WorkflowTransition → JsonObject → RequestContext → JsonObject
unfolding set_each
apply_set_fields t data_ ctx = set_each t.set_fields data_ ctx
