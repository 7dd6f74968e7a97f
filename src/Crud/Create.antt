-- ===== src/Crud/Create.antt =====
-- go/crud/create.go, with EmitCreated of go/workflow/workflow.go. `prepare_create` is the part before
-- the transaction and `commit_create` is the rest. The identifier is the database's, and so is the
-- first version (the default of the column, go/reconciler/executor.go). The column created_by is left
-- out: no operation reads it.
pub mod Laws
pub mod State
use Prim.Native.String.{◌++◌ as append}
use metap.Prelude.{
  ℕ, Bool, true, false, Option, none, some, List, [], ◌∷◌, ◌++◌, String, lookup, insert, keys,
  if◌then◌else◌,
}
use metap.Prelude.Int.{ℤ}
use metap.Json.{Json, str, JsonObject, object, as_string}
use metap.Permission.Context.{RequestContext, create}
use metap.Permission.Service.{scoped_tenant, check_action, load_permission_snapshot}
use metap.Permission.Snapshot.{PermissionSnapshot, assert_writable_fields}
use metap.Metadata.Entity.{EntityDefinition, EntityWorkflow}
use metap.Workflow.{get_initial_status}
use metap.Audit.{Entry, diff_json_objects}
use metap.Audit
use metap.Crud.Validation.{validate_payload}
use metap.Crud.Enrich.{Service, record_audit}
use metap.Crud.Fields.{reject_system_fields, recompute_fields}
use metap.Crud.Unique.{Statement, execute}
use metap.Crud.Call.{Caller}
use metap.Crud.Transition.{validated}
use metap.Crud.Update.{no_errors, code_of}
use metap.Crud.Store
use metap.Crud.Store.{
  Db, Row, OutboxEvent, Begin, Response, done, failed, ◌>>=◌, ◌>>◌, check, or_refuse, of_service,
  begin, permit, permit_fields, parse_user_id, mask_record_for_read,
}

-- How the calls of the router and of the driver end, and the identifier that the database gives.
pub record CreateIo : Type 0 where
  pub registry_loads : Bool
  pub write_begin : Begin
  pub statement : Statement
  pub new_id : String
  pub enqueues : Bool
  pub commits : Bool
  pub stores_audit : Bool

pub record CreateCall : Type 0 where
  pub entity_name : String
  pub payload : JsonObject
  pub reason : Option String

-- What the checks hand to the write.
pub record PreparedCreate : Type 0 where
  pub caller : Caller
  pub open caller use *
  pub snapshot : PermissionSnapshot
  pub next_data : JsonObject
  pub status : Option String
  pub user_id : Option String

-- The state field is written into the data unless the data has one.
abbrev pub with_state : Option EntityWorkflow → Option String → JsonObject → JsonObject
with_state (some w) (some status) data_ = elim (lookup w.state_field data_) [
  | none ↦ insert w.state_field (str status) data_
  | some _ ↦ data_
]
with_state _ _ data_ = data_

unfoldable pub created : String → PreparedCreate → Row
created id p = record {
  table = p.entity.table_name;
  id = id;
  tenant_id = p.tenant;
  code = code_of p.next_data;
  status = p.status;
  fields = p.next_data;
  version = 1;
  deleted = false;
  updated_by = p.user_id;
}

abbrev pub created_event : PreparedCreate → Row → OutboxEvent
created_event p r = record {
  topic = append p.entity.name ".record.created";
  aggregate_type = p.entity.name;
  aggregate_id = r.id;
  payload =
      object
        (("tenantId", str p.tenant) ∷ ("recordId", str r.id) ∷ ("data", object p.next_data) ∷ []);
}

abbrev pub created_entry : CreateCall → PreparedCreate → Row → Entry
created_entry call p r = record {
  tenant_id = p.tenant;
  entity = p.entity.name;
  record_id = r.id;
  action = Audit.create;
  transition_action = none;
  actor_user_id = p.user_id;
  reason = call.reason;
  diff = diff_json_objects [] p.next_data;
  version_after = some r.version;
}

module _ (parse_uuid : String → Option String) (s : Service) (rc : RequestContext)
    (number_text : ℤ → String) (json_text : Json → String) (io : CreateIo) where
  -- The data of a valid payload, and the status column.
  unfoldable pub complete :
      Caller → PermissionSnapshot → JsonObject → Option String → PreparedCreate
  complete c snapshot valid user =
      let computed = recompute_fields number_text json_text c.entity.fields valid in
      let status = get_initial_status c.entity computed in
      record {
        caller = c;
        snapshot = snapshot;
        next_data = with_state c.entity.workflow status computed;
        status = status;
        user_id = user;
      }

  unfoldable pub prepare_create : CreateCall → Response PreparedCreate
  unfolding complete
  prepare_create call = do
    tenant ← of_service (scoped_tenant parse_uuid rc)
    check io.registry_loads
    entity ← or_refuse 404 "entity_not_found" (s.find_entity call.entity_name)
    decision ← of_service (check_action parse_uuid s.policies rc entity.name create)
    permit decision
    snapshot ← of_service (load_permission_snapshot s.policies tenant entity.name)
    permit_fields (assert_writable_fields snapshot rc (keys call.payload) none)
    no_errors (reject_system_fields entity call.payload)
    valid ← validated (validate_payload parse_uuid entity call.payload)
    user ← parse_user_id parse_uuid rc
    done (complete (record { tenant = tenant; entity = entity }) snapshot valid user)

  unfoldable pub write_create : PreparedCreate → Db → Response (Db × Row)
  unfolding created
  write_create p db = do
    begin io.write_begin
    execute p.entity io.statement
    let new = created io.new_id p
    check io.enqueues
    check io.commits
    done (
      record db { rows = db.rows ++ new ∷ []; outbox = db.outbox ++ created_event p new ∷ [] },
      new,
    )

  abbrev pub answer_create :
      CreateCall → PreparedCreate → Db → Response (Db × Row) → Db × Response Row
  answer_create call p db (done (db', new)) = (
    record_audit s p.entity (created_entry call p new) io.stores_audit db',
    done (mask_record_for_read p.entity rc p.snapshot new),
  )
  answer_create call p db (Store.refused r) = (db, Store.refused r)
  answer_create call p db failed = (db, failed)

  unfoldable pub commit_create : CreateCall → PreparedCreate → Db → Db × Response Row
  unfolding write_create
  commit_create call p db = answer_create call p db (write_create p db)

  abbrev pub after_prepare_create : CreateCall → Db → Response PreparedCreate → Db × Response Row
  after_prepare_create call db (done p) = commit_create call p db
  after_prepare_create call db (Store.refused r) = (db, Store.refused r)
  after_prepare_create call db failed = (db, failed)

  unfoldable pub create_record : CreateCall → Db → Db × Response Row
  unfolding prepare_create commit_create
  create_record call db = after_prepare_create call db (prepare_create call)
