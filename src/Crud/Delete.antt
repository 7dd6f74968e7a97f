-- ===== src/Crud/Delete.antt =====
-- go/crud/delete.go, with EmitDeleted of go/workflow/workflow.go. As in an update, the precheck
-- (`prepare_delete`) and the write (`commit_delete`) are two transactions; the reference guard is in
-- the second.
pub mod Laws
use Prim.Native.String.{◌++◌ as append}
use metap.Prelude.{
  ℕ, ◌+◌, Bool, true, false, Option, none, some, List, [], ◌∷◌, ◌++◌, String, lookup, insert,
  if◌then◌else◌,
}
use metap.Json.{str, object}
use metap.Permission.Context.{RequestContext, delete}
use metap.Permission.Service.{scoped_tenant, check_action, load_permission_snapshot}
use metap.Permission.Snapshot.{PermissionSnapshot, can_perform_record_condition}
use metap.Metadata.Entity.{EntityDefinition}
use metap.Audit.{Entry}
use metap.Audit
use metap.Crud.Validation.{FieldErrors}
use metap.Crud.Enrich.{Service, enrich_record_for_actions, record_audit}
use metap.Crud.Call.{Caller}
use metap.Crud.References.{ReferencingHit, referencing_fields, find_referencing_records}
use metap.Crud.Store
use metap.Crud.Store.{
  Db, Row, OutboxEvent, Begin, Response, done, failed, ◌>>=◌, ◌>>◌, refuse_with, plain_message,
  check, or_refuse, of_service, begin, permit, parse_user_id, is_at, find_row, fetch_existing,
  update_rows, mask_record_for_read,
}

-- How the calls of the router and of the driver end.
pub record DeleteIo : Type 0 where
  pub registry_loads : Bool
  pub precheck_begin : Begin
  pub fetches : Bool
  pub precheck_commits : Bool
  pub enrich_reads : Bool
  pub write_begin : Begin
  pub finds_references : Bool
  pub updates : Bool
  pub enqueues : Bool
  pub commits : Bool
  pub stores_audit : Bool

pub record DeleteCall : Type 0 where
  pub entity_name : String
  pub id : String
  pub expected_version : ℕ
  pub reason : Option String

-- What the precheck hands to the write.
pub record PreparedDelete : Type 0 where
  pub caller : Caller
  pub open caller use *
  pub snapshot : PermissionSnapshot
  pub existing : Row
  pub user_id : Option String

abbrev or_nil : Option (List String) → List String
or_nil none = []
or_nil (some ids) = ids

-- The identifiers of the blocking records, under "<entity>.<field>".
unfoldable pub blockers_by_field : List ReferencingHit → FieldErrors → FieldErrors
blockers_by_field [] errs = errs
blockers_by_field (h ∷ hs) errs =
    let key = append h.entity (append "." h.field) in
    blockers_by_field hs (insert key (or_nil (lookup key errs) ++ h.id ∷ []) errs)

-- The message names the first blocker.
unfoldable pub no_blockers : List ReferencingHit → Response (Unit {0})
unfolding blockers_by_field
no_blockers [] = done tt
no_blockers (h ∷ hs) =
    refuse_with 409 "record_referenced" (plain_message (append h.field (append " on " h.entity)))
      (blockers_by_field (h ∷ hs) [])

-- SET deleted, version, updated_by
unfoldable pub removed : PreparedDelete → Row → Row
removed p r = record r { version = r.version + 1; deleted = true; updated_by = p.user_id }

abbrev pub removed_event : PreparedDelete → Row → OutboxEvent
removed_event p r = record {
  topic = append p.entity.name ".record.deleted";
  aggregate_type = p.entity.name;
  aggregate_id = r.id;
  payload = object (("tenantId", str p.tenant) ∷ ("recordId", str r.id) ∷ []);
}

abbrev pub removed_entry : DeleteCall → PreparedDelete → Row → Entry
removed_entry call p r = record {
  tenant_id = p.tenant;
  entity = p.entity.name;
  record_id = r.id;
  action = Audit.delete;
  transition_action = none;
  actor_user_id = p.user_id;
  reason = call.reason;
  diff = [];
  version_after = some r.version;
}

module _ (parse_uuid : String → Option String) (s : Service) (registry : List EntityDefinition)
    (rc : RequestContext) (io : DeleteIo) where
  unfoldable pub prepare_delete : DeleteCall → Db → Response PreparedDelete
  prepare_delete call db = do
    tenant ← of_service (scoped_tenant parse_uuid rc)
    check io.registry_loads
    entity ← or_refuse 404 "entity_not_found" (s.find_entity call.entity_name)
    decision ← of_service (check_action parse_uuid s.policies rc entity.name delete)
    permit decision
    begin io.precheck_begin
    check io.fetches
    existing ← or_refuse 404 "record_not_found" (fetch_existing db entity call.id tenant)
    check io.precheck_commits
    snapshot ← of_service (load_permission_snapshot s.policies tenant entity.name)
    enriched ←
        enrich_record_for_actions parse_uuid s db tenant entity snapshot (delete ∷ [])
          existing.fields io.enrich_reads
    permit (can_perform_record_condition snapshot rc enriched delete)
    user ← parse_user_id parse_uuid rc
    done (record {
      caller = record { tenant = tenant; entity = entity };
      snapshot = snapshot;
      existing = existing;
      user_id = user;
    })

  unfoldable pub write_delete : DeleteCall → PreparedDelete → Db → Response (Db × Row)
  unfolding removed no_blockers
  write_delete call p db = do
    let hit = is_at p.entity.table_name call.id p.tenant call.expected_version
    begin io.write_begin
    check io.finds_references
    no_blockers (
        find_referencing_records parse_uuid p.tenant call.id
          (referencing_fields registry p.entity.name) db.rows)
    check io.updates
    old ← or_refuse 409 "version_conflict" (find_row hit db.rows)
    let new = removed p old
    check io.enqueues
    check io.commits
    done (
      record db {
        rows = update_rows hit (removed p) db.rows;
        outbox = db.outbox ++ removed_event p new ∷ [];
      },
      new,
    )

  abbrev pub answer_delete :
      DeleteCall → PreparedDelete → Db → Response (Db × Row) → Db × Response Row
  answer_delete call p db (done (db', new)) = (
    record_audit s p.entity (removed_entry call p new) io.stores_audit db',
    done (mask_record_for_read p.entity rc p.snapshot new),
  )
  answer_delete call p db (Store.refused r) = (db, Store.refused r)
  answer_delete call p db failed = (db, failed)

  unfoldable pub commit_delete : DeleteCall → PreparedDelete → Db → Db × Response Row
  unfolding write_delete
  commit_delete call p db = answer_delete call p db (write_delete call p db)

  abbrev pub after_prepare_delete : DeleteCall → Db → Response PreparedDelete → Db × Response Row
  after_prepare_delete call db (done p) = commit_delete call p db
  after_prepare_delete call db (Store.refused r) = (db, Store.refused r)
  after_prepare_delete call db failed = (db, failed)

  -- The call with no other write between its two transactions.
  unfoldable pub delete_record : DeleteCall → Db → Db × Response Row
  unfolding prepare_delete commit_delete
  delete_record call db = after_prepare_delete call db (prepare_delete call db)
