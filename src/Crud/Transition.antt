-- ===== src/Crud/Transition.antt =====
-- go/crud/transition.go, with LastActors, RecordEvent and EmitTransitioned of
-- go/workflow/workflow.go. The precheck and the write are two transactions: `prepare` reads one
-- state of the database, and `commit` writes to another, which other calls may have changed.
pub mod Writes
pub mod Computed
pub mod Versions
pub mod Checks
use Prim.Native.String.{◌++◌ as append}
use metap.Prelude.{
  ℕ, ◌+◌, Bool, true, false, Option, none, some, List, [], ◌∷◌, ◌++◌, String, ◌==◌, ◌&&◌, lookup,
  insert, insert_all, Assoc, keys, if◌then◌else◌,
}
use metap.Json.{Json, null, str, JsonObject, object, as_string}
use metap.Permission.Context.{RequestContext, transition}
use metap.Permission.Service.{
  scoped_tenant, service_can_transition_action, load_permission_snapshot,
}
use metap.Permission.Snapshot.{
  PermissionSnapshot, can_perform_record_condition, assert_writable_fields,
}
use metap.Metadata.Entity.{EntityDefinition, EntityWorkflow, WorkflowTransition}
use metap.Workflow.{
  WorkflowError, find_transition, run_guard, run_validator, uses_workflow_context,
  with_workflow_context, apply_set_fields,
}
use metap.Audit.{Entry, diff_json_objects}
use metap.Audit
use metap.Crud.Validation.{validate_payload, Validated, accepted, refused, FieldErrors}
use metap.Crud.Enrich.{Service, enrich_record_for_actions, record_audit}
use metap.Crud.Call.{
  Io, Call, Caller, Loaded, Prepared, transitioned, event_of, or_null_text, outbox_of, entry_of,
}
use metap.Crud.Commit.{commit}
use metap.Crud.Store
use metap.Crud.Store.{
  Db, Row, WorkflowEvent, OutboxEvent, Begin, Response, done, failed, ◌>>=◌, ◌>>◌, refuse,
  refuse_with, no_message, workflow_message, check, or_refuse, of_service, begin, permit,
  permit_fields, parse_user_id, is_at, find_row, fetch_existing, update_rows, mask_record_for_read,
}

-- The events of one record, oldest first; a later one of the same action replaces its actor.
unfoldable pub last_actors :
    String → String → String → List WorkflowEvent → Assoc String → Assoc String
last_actors tenant entity id [] actors = actors
last_actors tenant entity id (e ∷ es) actors = last_actors tenant entity id es (
    if e.tenant_id == tenant && e.entity == entity && e.record_id == id
    then (elim e.actor [ none ↦ actors | some a ↦ insert e.action a actors ])
    else actors)

abbrev pub guarded : ℕ → String → Option WorkflowError → Response (Unit {0})
guarded status code none = done tt
guarded status code (some e) = refuse_with status code (workflow_message e) []

-- `existing.Data[stateField]` as a text.
abbrev pub state_of : EntityWorkflow → JsonObject → Response String
state_of w r = elim (lookup w.state_field r) [
  | none ↦ refuse 409 "invalid_transition"
  | some raw ↦ or_refuse 409 "invalid_transition" (as_string raw)
]

abbrev pub merge_payload :
    PermissionSnapshot → RequestContext → JsonObject → Option JsonObject → Response JsonObject
merge_payload snapshot rc existing none = done existing
merge_payload snapshot rc existing (some p) = do
  permit_fields (assert_writable_fields snapshot rc (keys p) (some existing))
  done (insert_all p existing)

abbrev pub validated : Validated → Response JsonObject
validated (accepted m) = done m
validated (refused errs) = refuse_with 400 "validation_failed" no_message errs

module _ (parse_uuid : String → Option String) (s : Service) (io : Io) (rc : RequestContext) where
  abbrev pub actors_for : EntityDefinition → String → String → Db → Response (Assoc String)
  actors_for entity tenant id db =
      if uses_workflow_context entity
      then (check io.reads_actors >> done (last_actors tenant entity.name id db.events []))
      else done []

  -- From the transition that was found to the data that will be written.
  unfoldable pub next_data_of :
      EntityDefinition
      → PermissionSnapshot
      → EntityWorkflow
      → WorkflowTransition
      → Row
      → Assoc String
      → Option JsonObject
      → Response JsonObject
  next_data_of entity snapshot w t existing actors payload = do
    guarded 422 "guard_failed" (run_guard t (with_workflow_context existing.fields actors) rc)
    merged ← merge_payload snapshot rc existing.fields payload
    next ←
        validated (validate_payload parse_uuid entity (insert w.state_field (str t.target) merged))
    guarded 422 "validator_failed" (run_validator t (with_workflow_context next actors) rc)
    done (apply_set_fields t next rc)

  -- The entity, and the permission to take the action on it.
  unfoldable pub authorize : Call → Response Caller
  authorize call = do
    tenant ← of_service (scoped_tenant parse_uuid rc)
    check io.registry_loads
    entity ← or_refuse 404 "entity_not_found" (s.find_entity call.entity_name)
    decision ←
        of_service (service_can_transition_action parse_uuid s.policies rc entity.name call.action)
    permit decision
    done (record { tenant = tenant; entity = entity })

  -- The stored record, and the permission to take a transition of it.
  unfoldable pub load : Call → Db → Caller → Response Loaded
  load call db c = do
    begin io.precheck_begin
    check io.fetches
    existing ← or_refuse 404 "record_not_found" (fetch_existing db c.entity call.id c.tenant)
    actors ← actors_for c.entity c.tenant call.id db
    check io.precheck_commits
    snapshot ← of_service (load_permission_snapshot s.policies c.tenant c.entity.name)
    enriched ←
        enrich_record_for_actions parse_uuid s db c.tenant c.entity snapshot (transition ∷ [])
          existing.fields io.enrich_reads
    permit (can_perform_record_condition snapshot rc enriched transition)
    done (record { caller = c; snapshot = snapshot; existing = existing; actors = actors })

  -- The transition of the stored state, and the data that it writes.
  unfoldable pub choose : Call → Loaded → Response Prepared
  unfolding next_data_of
  choose call l = do
    w ← or_refuse 400 "no_workflow" l.entity.workflow
    from_state ← state_of w l.existing.fields
    t ← or_refuse 409 "invalid_transition" (find_transition l.entity call.action from_state)
    next ← next_data_of l.entity l.snapshot w t l.existing l.actors call.payload
    user ← parse_user_id parse_uuid rc
    done (record {
      loaded = l;
      from_state = from_state;
      to_state = t.target;
      next_data = next;
      user_id = user;
    })

  unfoldable pub prepare : Call → Db → Response Prepared
  unfolding authorize load choose
  prepare call db = do c ← authorize call; l ← load call db c; choose call l

module _ (parse_uuid : String → Option String) (s : Service) (io : Io) (rc : RequestContext) where
  abbrev pub after_prepare : Call → Db → Response Prepared → Db × Response Row
  after_prepare call db (done p) = commit s io rc call p db
  after_prepare call db (Store.refused r) = (db, Store.refused r)
  after_prepare call db failed = (db, failed)

  -- The call with no other write between its two transactions.
  unfoldable pub transition_record : Call → Db → Db × Response Row
  unfolding prepare commit
  transition_record call db = after_prepare call db (prepare parse_uuid s io rc call db)
