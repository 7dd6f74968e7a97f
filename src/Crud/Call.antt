-- ===== src/Crud/Call.antt =====
-- The call of a transition (go/crud/transition.go): its arguments, what each stage hands to the next,
-- and the row, the events (RecordEvent and EmitTransitioned of go/workflow/workflow.go) and the audit
-- entry that it writes.
use Prim.Native.String.{◌++◌ as append}
use metap.Prelude.{ℕ, ◌+◌, Bool, Option, none, some, [], ◌∷◌, String, Assoc}
use metap.Json.{Json, null, str, JsonObject, object}
use metap.Permission.Snapshot.{PermissionSnapshot}
use metap.Metadata.Entity.{EntityDefinition}
use metap.Audit.{Entry, diff_json_objects}
use metap.Audit
use metap.Crud.Store.{Row, WorkflowEvent, OutboxEvent, Begin}
use metap.Crud.Tx.{CommitEnd}

-- How the calls of the router and of the driver end.
pub record Io : Type 0 where
  pub registry_loads : Bool
  pub precheck_begin : Begin
  pub fetches : Bool
  pub reads_actors : Bool
  pub precheck_commits : Bool
  pub enrich_reads : Bool
  pub write_begin : Begin
  pub updates : Bool
  pub inserts_event : Bool
  pub enqueues : Bool
  pub commits : CommitEnd
  pub stores_audit : Bool

-- The arguments of the call; `payload` may be nil.
pub record Call : Type 0 where
  pub entity_name : String
  pub id : String
  pub action : String
  pub expected_version : ℕ
  pub payload : Option JsonObject
  pub reason : Option String

pub record Caller : Type 0 where
  pub tenant : String
  pub entity : EntityDefinition

pub record Loaded : Type 0 where
  pub caller : Caller
  pub open caller use *
  pub snapshot : PermissionSnapshot
  pub existing : Row
  pub actors : Assoc String

-- What the precheck hands to the write.
pub record Prepared : Type 0 where
  pub loaded : Loaded
  pub open loaded use *
  pub from_state : String
  pub to_state : String
  pub next_data : JsonObject
  pub user_id : Option String

-- SET data, status, version, updated_by
unfoldable pub transitioned : Prepared → Row → Row
transitioned p r = record r {
  fields = p.next_data;
  status = some p.to_state;
  version = r.version + 1;
  updated_by = p.user_id;
}

abbrev pub event_of : Call → Prepared → Row → WorkflowEvent
event_of call p r = record {
  tenant_id = p.tenant;
  entity = p.entity.name;
  record_id = r.id;
  action = call.action;
  from_state = p.from_state;
  to_state = p.to_state;
  actor = p.user_id;
}

abbrev pub or_null_text : Option String → Json
or_null_text none = null
or_null_text (some u) = str u

abbrev pub outbox_of : Call → Prepared → Row → OutboxEvent
outbox_of call p r = record {
  topic = append p.entity.name ".workflow.transitioned";
  aggregate_type = p.entity.name;
  aggregate_id = r.id;
  payload = object (
      ("tenantId", str p.tenant)
      ∷ ("recordId", str r.id)
      ∷ ("action", str call.action)
      ∷ ("from", str p.from_state)
      ∷ ("to", str p.to_state)
      ∷ ("actor", or_null_text p.user_id)
      ∷ []);
}

abbrev pub entry_of : Call → Prepared → Row → Entry
entry_of call p r = record {
  tenant_id = p.tenant;
  entity = p.entity.name;
  record_id = r.id;
  action = Audit.transition;
  transition_action = some call.action;
  actor_user_id = p.user_id;
  reason = call.reason;
  diff = diff_json_objects p.existing.fields r.fields;
  version_after = some r.version;
}
