-- ===== src/Crud/Update.antt =====
-- go/crud/update.go, with EmitUpdated of go/workflow/workflow.go and invalidateContextCacheIfConfigured of go/crud/crud_service.go. As in a
-- transition, the precheck (`prepare_update`) and the write (`commit_update`) are two transactions.
pub mod Laws
pub mod Merged
pub mod Checks
use Prim.Native.String.{◌++◌ as append}
use metap.Prelude.{
  ℕ, ◌+◌, Bool, true, false, not, Option, none, some, List, [], ◌∷◌, ◌++◌, String, ◌==◌, ◌&&◌,
  lookup, insert, insert_all, keys, cut_prefix, split, mem_text, if◌then◌else◌,
}
use metap.Prelude.Int.{ℤ, pos}
use metap.Json.{Json, str, num, JsonObject, object, as_string}
use metap.Permission.Context.{RequestContext, update}
use metap.Permission.Service.{scoped_tenant, check_action, load_permission_snapshot}
use metap.Permission.Snapshot.{
  PermissionSnapshot, can_perform_record_condition, assert_writable_fields,
}
use metap.Metadata.Entity.{
  EntityDefinition, EntityWorkflow, EntityUniqueConstraint, system_field_names,
}
use metap.Audit.{Entry, diff_json_objects}
use metap.Audit
use metap.Crud.Validation.{validate_payload, FieldErrors}
use metap.Crud.Enrich.{Service, enrich_record_for_actions, record_audit}
use metap.Crud.Fields.{reject_system_fields, keep_stored, recompute_fields}
use metap.Crud.Unique.{Statement, execute}
use metap.Crud.Call.{Caller}
use metap.Crud.Transition.{validated}
use metap.Crud.Store
use metap.Crud.Store.{
  Db, Row, OutboxEvent, Begin, Response, done, failed, ◌>>=◌, ◌>>◌, refuse, refuse_with, no_message,
  plain_message, check, or_refuse, of_service, begin, permit, permit_fields, parse_user_id, is_at,
  find_row, fetch_existing, update_rows, mask_record_for_read,
}

-- How the calls of the router and of the driver end.
pub record UpdateIo : Type 0 where
  pub registry_loads : Bool
  pub precheck_begin : Begin
  pub fetches : Bool
  pub precheck_commits : Bool
  pub enrich_reads : Bool
  pub write_begin : Begin
  pub statement : Statement
  pub enqueues : Bool
  pub commits : Bool
  pub stores_audit : Bool

pub record UpdateCall : Type 0 where
  pub entity_name : String
  pub id : String
  pub expected_version : ℕ
  pub payload : JsonObject
  pub reason : Option String

pub record LoadedUpdate : Type 0 where
  pub caller : Caller
  pub open caller use *
  pub snapshot : PermissionSnapshot
  pub existing : Row

-- What the precheck hands to the write.
pub record PreparedUpdate : Type 0 where
  pub loaded : LoadedUpdate
  pub open loaded use *
  pub next_data : JsonObject
  pub user_id : Option String

-- The state field goes back to what is stored, if anything is.
abbrev pub reset_state : Option EntityWorkflow → JsonObject → JsonObject → JsonObject
reset_state none existing merged = merged
reset_state (some w) existing merged = elim (lookup w.state_field existing) [
  | none ↦ merged
  | some state ↦ insert w.state_field state merged
]

abbrev pub no_errors : FieldErrors → Response (Unit {0})
no_errors [] = done tt
no_errors (e ∷ errs) = refuse_with 400 "validation_failed" no_message (e ∷ errs)

abbrev pub code_of : JsonObject → Option String
code_of data_ = elim (lookup "code" data_) [ none ↦ none | some raw ↦ as_string raw ]

-- SET data, code, version, updated_by: the system fields stay as the row has them now.
unfoldable pub updated : PreparedUpdate → Row → Row
unfolding keep_stored
updated p r = record r {
  fields = keep_stored (system_field_names p.entity) p.next_data r.fields;
  code = code_of p.next_data;
  version = r.version + 1;
  updated_by = p.user_id;
}

abbrev pub updated_event : PreparedUpdate → Row → OutboxEvent
updated_event p r = record {
  topic = append p.entity.name ".record.updated";
  aggregate_type = p.entity.name;
  aggregate_id = r.id;
  payload = object (
      ("tenantId", str p.tenant)
      ∷ ("recordId", str r.id)
      ∷ ("data", object p.next_data)
      ∷ ("version", num (pos r.version))
      ∷ []);
}

abbrev pub updated_entry : UpdateCall → PreparedUpdate → Row → Entry
updated_entry call p r = record {
  tenant_id = p.tenant;
  entity = p.entity.name;
  record_id = r.id;
  action = Audit.update;
  transition_action = none;
  actor_user_id = p.user_id;
  reason = call.reason;
  diff = diff_json_objects p.existing.fields p.next_data;
  version_after = some r.version;
}

module _ (parse_uuid : String → Option String) (s : Service) (rc : RequestContext) where
  abbrev user_of : JsonObject → Option String
  user_of data_ = elim (lookup "userId" data_) [
    | none ↦ none
    | some raw ↦ elim (as_string raw) [ none ↦ none | some text ↦ parse_uuid text ]
  ]

  -- invalidateContextCacheIfConfigured
  unfoldable pub invalidate_context_cache : String → String → JsonObject → Db → Db
  invalidate_context_cache entity tenant data_ db = elim s.context_entity [
    | none ↦ db
    | some configured ↦
        if configured == entity
        then elim (user_of data_) [
          | none ↦ db
          | some user ↦ record db { invalidated = db.invalidated ++ (tenant, user) ∷ [] }
        ]
        else db
  ]

  module _ (number_text : ℤ → String) (json_text : Json → String) (io : UpdateIo) where
    -- The entity, and the permission to update it.
    unfoldable pub authorize_update : UpdateCall → Response Caller
    authorize_update call = do
      tenant ← of_service (scoped_tenant parse_uuid rc)
      check io.registry_loads
      entity ← or_refuse 404 "entity_not_found" (s.find_entity call.entity_name)
      decision ← of_service (check_action parse_uuid s.policies rc entity.name update)
      permit decision
      done (record { tenant = tenant; entity = entity })

    -- The stored record, and the permission to update it.
    unfoldable pub load_update : UpdateCall → Db → Caller → Response LoadedUpdate
    load_update call db c = do
      begin io.precheck_begin
      check io.fetches
      existing ← or_refuse 404 "record_not_found" (fetch_existing db c.entity call.id c.tenant)
      check io.precheck_commits
      snapshot ← of_service (load_permission_snapshot s.policies c.tenant c.entity.name)
      enriched ←
          enrich_record_for_actions parse_uuid s db c.tenant c.entity snapshot (update ∷ [])
            existing.fields io.enrich_reads
      permit (can_perform_record_condition snapshot rc enriched update)
      done (record { caller = c; snapshot = snapshot; existing = existing })

    -- The payload's fields, and the data that is written.
    unfoldable pub merge_update : UpdateCall → LoadedUpdate → Response PreparedUpdate
    merge_update call l = do
      no_errors (reject_system_fields l.entity call.payload)
      permit_fields
          (assert_writable_fields l.snapshot rc (keys call.payload) (some l.existing.fields))
      valid ← validated (
          validate_payload parse_uuid l.entity (
            reset_state l.entity.workflow l.existing.fields
              (insert_all call.payload l.existing.fields)))
      user ← parse_user_id parse_uuid rc
      done (record {
        loaded = l;
        next_data = recompute_fields number_text json_text l.entity.fields valid;
        user_id = user;
      })

    unfoldable pub prepare_update : UpdateCall → Db → Response PreparedUpdate
    unfolding authorize_update load_update merge_update
    prepare_update call db = do
      c ← authorize_update call
      l ← load_update call db c
      merge_update call l

    unfoldable pub write_update : UpdateCall → PreparedUpdate → Db → Response (Db × Row)
    unfolding updated
    write_update call p db = do
      let hit = is_at p.entity.table_name call.id p.tenant call.expected_version
      begin io.write_begin
      execute p.entity io.statement
      old ← or_refuse 409 "version_conflict" (find_row hit db.rows)
      let new = updated p old
      check io.enqueues
      check io.commits
      done (
        record db {
          rows = update_rows hit (updated p) db.rows;
          outbox = db.outbox ++ updated_event p new ∷ [];
        },
        new,
      )

    abbrev pub after_update : UpdateCall → PreparedUpdate → Row → Db → Db
    after_update call p new db =
        record_audit s p.entity (updated_entry call p new) io.stores_audit
          (invalidate_context_cache p.entity.name p.tenant p.next_data db)

    abbrev pub answer_update :
        UpdateCall → PreparedUpdate → Db → Response (Db × Row) → Db × Response Row
    answer_update call p db (done (db', new)) =
        (after_update call p new db', done (mask_record_for_read p.entity rc p.snapshot new))
    answer_update call p db (Store.refused r) = (db, Store.refused r)
    answer_update call p db failed = (db, failed)

    unfoldable pub commit_update : UpdateCall → PreparedUpdate → Db → Db × Response Row
    unfolding write_update invalidate_context_cache
    commit_update call p db = answer_update call p db (write_update call p db)

    abbrev pub after_prepare_update : UpdateCall → Db → Response PreparedUpdate → Db × Response Row
    after_prepare_update call db (done p) = commit_update call p db
    after_prepare_update call db (Store.refused r) = (db, Store.refused r)
    after_prepare_update call db failed = (db, failed)

    -- The call with no other write between its two transactions.
    unfoldable pub update_record : UpdateCall → Db → Db × Response Row
    unfolding prepare_update commit_update
    update_record call db = after_prepare_update call db (prepare_update call db)
