-- ===== src/Crud/Delete/Laws.antt =====
-- What a delete that is refused, and one that returns, leave in the tables.
use metap.Prelude.{
  ◌+◌, true, false, Option, none, some, List, [], ◌∷◌, ◌++◌, String, ◌≡◌, refl, sym, ap, ◌∙◌, any,
  arith,
}
use metap.Permission.Context.{RequestContext}
use metap.Metadata.Entity.{EntityDefinition}
use metap.Audit.{Entry}
use metap.Crud.Enrich.{Service, record_audit}
use metap.Crud.References.{
  ReferencingHit, referencing_fields, fields_of_entities, find_referencing_records,
}
use metap.Crud.References.Guard.{references, find_referencing_records-nil, any-references}
use metap.Crud.Rows.{IsNext, no_row_left}
use metap.Crud.Store.{
  Db, Row, Response, done, refused, failed, is_at, find_row, update_rows, >>=-done, done-injective,
  or_refuse-done, check, begin, or_refuse,
}
use metap.Crud.Delete.{
  DeleteIo, DeleteCall, PreparedDelete, removed, removed_event, removed_entry, no_blockers,
  write_delete, answer_delete, commit_delete,
}

removed-IsNext : (p : PreparedDelete) → IsNext (removed p)
unfolding removed
removed-IsNext p = record {
  version = λ r. refl;
  table = λ r. refl;
  id = λ r. refl;
  tenant_id = λ r. refl;
}

no_blockers-done :
    (hits : List ReferencingHit) {u : Unit {0}} → no_blockers hits ≡ done u → hits ≡ []
unfolding no_blockers
no_blockers-done [] h = refl
no_blockers-done (x ∷ xs) h = cc

module _ (parse_uuid : String → Option String) (s : Service) (registry : List EntityDefinition)
    (rc : RequestContext) (io : DeleteIo) where
  -- The row that a delete found, and what it left.
  pub record Deleted (call : DeleteCall) (p : PreparedDelete) (db after : Db) (old : Row)
      : Type 0 where
    pub found :
        find_row (is_at p.entity.table_name call.id p.tenant call.expected_version) db.rows
        ≡ some old
    pub rows :
        after.rows
        ≡ update_rows
            (is_at p.entity.table_name call.id p.tenant call.expected_version)
            (λ r. record r { version = r.version + 1; deleted = true; updated_by = p.user_id })
            db.rows
    pub unreferenced :
        any
          (references parse_uuid p.tenant call.id (fields_of_entities p.entity.name registry))
          db.rows
        ≡ false
    pub events : after.events ≡ db.events
    pub outbox : after.outbox ≡ db.outbox ++ removed_event p (removed p old) ∷ []

  Deleted-record_audit :
      (call : DeleteCall) (p : PreparedDelete) (db db' : Db) (old : Row) (e : Entry)
      → Deleted call p db db' old
      → Deleted call p db (record_audit s p.entity e io.stores_audit db') old
  unfolding record_audit
  Deleted-record_audit call p db db' old e d = record {
    found = d.found;
    rows = ground (arith, d.rows);
    unreferenced = d.unreferenced;
    events = ground (arith, d.events);
    outbox = ground (arith, d.outbox);
  }

  write_delete-done :
      (call : DeleteCall) (p : PreparedDelete) (db db' : Db) (new : Row)
      → write_delete parse_uuid s registry rc io call p db ≡ done (db', new)
      → (old : Row) × Deleted call p db db' old
  unfolding write_delete
  write_delete-done call p db db' new h =
      let (a, _, h1) = >>=-done (begin io.write_begin) _ h in
      let (b, _, h2) = >>=-done (check io.finds_references) _ h1 in
      let (c, nb, h3) = >>=-done (no_blockers (find_referencing_records _ _ _ _ _)) _ h2 in
      let (d, _, h4) = >>=-done (check io.updates) _ h3 in
      let (old, f, h5) = >>=-done (or_refuse 409 "version_conflict" (find_row _ db.rows)) _ h4 in
      let (e, _, h6) = >>=-done (check io.enqueues) _ h5 in
      let (g, _, h7) = >>=-done (check io.commits) _ h6 in
      let same = done-injective h7 in
      (
        old,
        record {
          found = or_refuse-done 409 "version_conflict" (find_row _ db.rows) f;
          rows = sym (ap (λ x. x.0.rows) same);
          unreferenced =
              sym (any-references parse_uuid p.tenant call.id p.entity.name registry db.rows)
              ∙ find_referencing_records-nil parse_uuid p.tenant call.id
                  (referencing_fields registry p.entity.name) db.rows (no_blockers-done _ nb);
          events = sym (ap (λ x. x.0.events) same);
          outbox = sym (ap (λ x. x.0.outbox) same);
        },
      )

  -- A delete that returns found a live record of the caller's tenant at the version that the call
  -- expected, marks it as deleted under the next version, changes no other row, and adds one outbox
  -- event for it. No live row of another record of the tenant refers to the record, through whatever
  -- reference field of the registry.
  pub commit_delete-done :
      (call : DeleteCall) (p : PreparedDelete) (db : Db) (shown : Row)
      → (commit_delete parse_uuid s registry rc io call p db).1 ≡ done shown
      → (old : Row) × Deleted call p db (commit_delete parse_uuid s registry rc io call p db).0 old
  unfolding commit_delete
  commit_delete-done call p db shown h =
      of_write (write_delete parse_uuid s registry rc io call p db) refl h
    where
      of_write :
          (w : Response (Db × Row))
          → write_delete parse_uuid s registry rc io call p db ≡ w
          → (answer_delete parse_uuid s registry rc io call p db w).1 ≡ done shown
          → (old : Row) × Deleted call p db
              (answer_delete parse_uuid s registry rc io call p db w).0
              old
      of_write (done (db', new)) e k =
          let (old, d) = write_delete-done call p db db' new e in
          (old, Deleted-record_audit call p db db' old (removed_entry call p new) d)
      of_write (refused r) e k = cc
      of_write failed e k = cc

  -- A record is deleted once: after a delete that returned no live record of its address is at the
  -- version that it expected.
  commit_delete_once :
      (call : DeleteCall) (p : PreparedDelete) (db : Db) (shown : Row)
      → (commit_delete parse_uuid s registry rc io call p db).1 ≡ done shown
      → find_row
          (is_at p.entity.table_name call.id p.tenant call.expected_version)
          (commit_delete parse_uuid s registry rc io call p db).0.rows
        ≡ none
  unfolding removed
  commit_delete_once call p db shown h =
      let (old, d) = commit_delete-done call p db shown h in
      rw d.rows (
        no_row_left p.entity.table_name call.id p.tenant call.expected_version (removed p)
          (removed-IsNext p) db.rows)
