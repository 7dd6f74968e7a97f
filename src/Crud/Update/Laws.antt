-- ===== src/Crud/Update/Laws.antt =====
-- What an update that is refused, and one that returns, leave in the tables.
use mathlib.Core.Path.{subst}
use metap.Prelude.{
  ◌+◌, Bool, Option, none, some, List, [], ◌∷◌, ◌++◌, String, ◌≡◌, refl, sym, ap, ◌∙◌, lookup,
  mem_text, arith, if◌then◌else◌,
}
use metap.Prelude.Int.{ℤ}
use metap.Json.{Json, JsonObject}
use metap.Permission.Context.{RequestContext}
use metap.Metadata.Entity.{EntityDefinition, system_field_names}
use metap.Crud.Enrich.{Service, record_audit}
use metap.Audit.{Entry}
use metap.Crud.Fields.{keep_stored_lem}
use metap.Crud.Rows.{IsNext, found_version, no_row_left}
use metap.Crud.Store.{
  Db, Row, WorkflowEvent, OutboxEvent, Response, done, refused, failed, is_at, find_row,
  update_rows, >>=-done, done-injective, or_refuse-done, check, begin, or_refuse,
  mask_record_for_read,
}
use metap.Crud.Unique.{execute}
use metap.Crud.Update.{
  UpdateIo, UpdateCall, PreparedUpdate, updated, updated_event, code_of, write_update,
  answer_update, commit_update, after_update, invalidate_context_cache,
}

updated-IsNext : (p : PreparedUpdate) → IsNext (updated p)
unfolding updated
updated-IsNext p = record {
  version = λ r. refl;
  table = λ r. refl;
  id = λ r. refl;
  tenant_id = λ r. refl;
}

abbrev tables : Db → List Row × List WorkflowEvent × List OutboxEvent
tables db = (db.rows, db.events, db.outbox)

module _ (parse_uuid : String → Option String) (s : Service) (rc : RequestContext)
    (number_text : ℤ → String) (json_text : Json → String) (io : UpdateIo) where
  abbrev run : UpdateCall → PreparedUpdate → Db → Db × Response Row
  run call p db = commit_update parse_uuid s rc number_text json_text io call p db

  -- The row that an update found, and what it made of it.
  pub record Updated (call : UpdateCall) (p : PreparedUpdate) (db after : Db) (shown old new : Row)
      : Type 0 where
    pub found :
        find_row (is_at p.entity.table_name call.id p.tenant call.expected_version) db.rows
        ≡ some old
    pub rows :
        after.rows
        ≡ update_rows
            (is_at p.entity.table_name call.id p.tenant call.expected_version)
            (updated p)
            db.rows
    pub replaced : new ≡ updated p old
    pub version : new.version ≡ call.expected_version + 1
    pub status : new.status ≡ old.status
    pub code : new.code ≡ code_of p.next_data
    pub kept :
        (k : String)
        → lookup k new.fields ≡ (
            if mem_text k (system_field_names p.entity)
            then lookup k old.fields
            else lookup k p.next_data)
    pub events : after.events ≡ db.events
    pub outbox : after.outbox ≡ db.outbox ++ updated_event p new ∷ []
    pub masked : shown ≡ mask_record_for_read p.entity rc p.snapshot new

  tables-record_audit :
      (entity : EntityDefinition) (e : Entry) (stores : Bool) (db : Db)
      → tables (record_audit s entity e stores db) ≡ tables db
  unfolding record_audit
  tables-record_audit entity e stores db = ground arith

  tables-invalidate_context_cache :
      (entity tenant : String) (data_ : JsonObject) (db : Db)
      → tables (invalidate_context_cache parse_uuid s rc entity tenant data_ db) ≡ tables db
  unfolding invalidate_context_cache
  tables-invalidate_context_cache entity tenant data_ db = ground arith

  tables-after_update :
      (call : UpdateCall) (p : PreparedUpdate) (new : Row) (db : Db)
      → tables (after_update parse_uuid s rc number_text json_text io call p new db) ≡ tables db
  tables-after_update call p new db =
      tables-record_audit p.entity _ io.stores_audit _
      ∙ tables-invalidate_context_cache p.entity.name p.tenant p.next_data db

  Updated-after :
      (call : UpdateCall) (p : PreparedUpdate) (db db' after : Db) (shown old new : Row)
      → tables after ≡ tables db'
      → Updated call p db db' shown old new
      → Updated call p db after shown old new
  Updated-after call p db db' after shown old new same u = record {
    found = u.found;
    rows = ap (λ t. t.0) same ∙ u.rows;
    replaced = u.replaced;
    version = u.version;
    status = u.status;
    code = u.code;
    kept = u.kept;
    events = ap (λ t. t.1) same ∙ u.events;
    outbox = ap (λ t. t.2) same ∙ u.outbox;
    masked = u.masked;
  }

  write_update-done :
      (call : UpdateCall) (p : PreparedUpdate) (db db' : Db) (new : Row)
      → write_update parse_uuid s rc number_text json_text io call p db ≡ done (db', new)
      → (old : Row) × Updated call p db db'
          (mask_record_for_read p.entity rc p.snapshot new)
          old
          new
  unfolding write_update updated
  write_update-done call p db db' new h =
      let (a, _, h1) = >>=-done (begin io.write_begin) _ h in
      let (b, _, h2) = >>=-done (execute p.entity io.statement) _ h1 in
      let (old, f, h3) = >>=-done (or_refuse 409 "version_conflict" (find_row _ db.rows)) _ h2 in
      let (c, _, h4) = >>=-done (check io.enqueues) _ h3 in
      let (d, _, h5) = >>=-done (check io.commits) _ h4 in
      let found = or_refuse-done 409 "version_conflict" (find_row _ db.rows) f in
      let same = done-injective h5 in
      let same_row : updated p old ≡ new = ap (λ x. x.1) same in
      (
        old,
        record {
          found = found;
          rows = sym (ap (λ x. x.0.rows) same);
          replaced = sym same_row;
          version =
              ap (λ (r : Row). r.version) (sym same_row)
              ∙ ap (λ n. n + 1)
                  (found_version p.entity.table_name call.id p.tenant _ db.rows old found);
          status = ap (λ (r : Row). r.status) (sym same_row);
          code = ap (λ (r : Row). r.code) (sym same_row);
          kept = λ k.
              ap (λ (r : Row). lookup k r.fields) (sym same_row)
              ∙ keep_stored_lem (system_field_names p.entity) p.next_data old.fields k;
          events = sym (ap (λ x. x.0.events) same);
          outbox =
              sym (ap (λ x. x.0.outbox) same)
              ∙ ap (λ r. db.outbox ++ updated_event p r ∷ []) same_row;
          masked = refl;
        },
      )

  -- An update that returns found a live record of the caller's tenant at the version that the call
  -- expected, and no other one is changed. The new row has the next version, its old status, the
  -- code of the data, its old system fields, and every other key of the data; one outbox event is
  -- added for it and no workflow event, and the row that is returned is masked for the caller.
  pub commit_update-done :
      (call : UpdateCall) (p : PreparedUpdate) (db : Db) (shown : Row)
      → (run call p db).1 ≡ done shown
      → (old : Row) × (new : Row) × Updated call p db (run call p db).0 shown old new
  unfolding commit_update
  commit_update-done call p db shown h =
      of_write (write_update parse_uuid s rc number_text json_text io call p db) refl h
    where
      of_write :
          (w : Response (Db × Row))
          → write_update parse_uuid s rc number_text json_text io call p db ≡ w
          → (answer_update parse_uuid s rc number_text json_text io call p db w).1 ≡ done shown
          → (old : Row) × (new : Row) × Updated call p db
              (answer_update parse_uuid s rc number_text json_text io call p db w).0
              shown
              old
              new
      of_write (done (db', new)) e k =
          let (old, u) = write_update-done call p db db' new e in
          (
            old,
            new,
            Updated-after call p db db' _ shown old new (tables-after_update call p new db')
                (subst (λ r. Updated call p db db' r old new) (done-injective k) u),
          )
      of_write (refused r) e k = cc
      of_write failed e k = cc

  -- No update is lost: after an update that returned no live record of its address is at the version
  -- that it expected, so that a second write with this version finds none.
  commit_update_once :
      (call : UpdateCall) (p : PreparedUpdate) (db : Db) (shown : Row)
      → (run call p db).1 ≡ done shown
      → find_row
          (is_at p.entity.table_name call.id p.tenant call.expected_version)
          (run call p db).0.rows
        ≡ none
  commit_update_once call p db shown h =
      let (old, new, u) = commit_update-done call p db shown h in
      rw u.rows (
        no_row_left p.entity.table_name call.id p.tenant call.expected_version (updated p)
          (updated-IsNext p) db.rows)
