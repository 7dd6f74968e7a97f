-- ===== src/Crud/Create/Laws.antt =====
-- What a create that returns leaves in the tables.
use mathlib.Core.Path.{subst}
use Prim.Native.String.{◌++◌ as append}
use metap.Crud.Update.{code_of}
use metap.Crud.Rows.{find_row-append, is_live_self}
use metap.Prelude.{some, none, ap, ◌∙◌, false, Option, [], ◌∷◌, ◌++◌, String, ◌≡◌, refl, arith}
use metap.Prelude.Int.{ℤ}
use metap.Json.{Json, str, object}
use metap.Permission.Context.{RequestContext}
use metap.Audit.{Entry}
use metap.Crud.Enrich.{Service, record_audit}
use metap.Crud.Unique.{execute}
use metap.Crud.Store.{
  Db, Row, Response, done, refused, failed, >>=-done, done-injective, check, begin,
  mask_record_for_read, find_row, is_live, fetch_existing,
}
use metap.Crud.Create.{
  CreateIo, CreateCall, PreparedCreate, created, created_event, created_entry, write_create,
  answer_create, commit_create,
}

module _ (parse_uuid : String → Option String) (s : Service) (rc : RequestContext)
    (number_text : ℤ → String) (json_text : Json → String) (io : CreateIo) where
  -- What a create adds to the tables.
  record Created (p : PreparedCreate) (db after : Db) (shown new : Row) : Type 0 where
    pub rows : after.rows ≡ db.rows ++ new ∷ []
    pub outbox : after.outbox ≡ db.outbox ++ created_event p new ∷ []
    pub events : after.events ≡ db.events
    pub row : new ≡ created io.new_id p
    pub masked : shown ≡ mask_record_for_read p.entity rc p.snapshot new

  Created-record_audit :
      (p : PreparedCreate) (db after : Db) (shown new : Row) (e : Entry)
      → Created p db after shown new
      → Created p db (record_audit s p.entity e io.stores_audit after) shown new
  unfolding record_audit
  Created-record_audit p db after shown new e c = record {
    rows = ground (arith, c.rows);
    outbox = ground (arith, c.outbox);
    events = ground (arith, c.events);
    row = c.row;
    masked = c.masked;
  }

  write_create-done :
      (p : PreparedCreate) (db db' : Db) (new : Row)
      → write_create parse_uuid s rc number_text json_text io p db ≡ done (db', new)
      → Created p db db' (mask_record_for_read p.entity rc p.snapshot new) new
  unfolding write_create
  write_create-done p db db' new h =
      let (_, _, h1) = >>=-done (begin io.write_begin) _ h in
      let (_, _, h2) = >>=-done (execute p.entity io.statement) _ h1 in
      let (_, _, h3) = >>=-done (check io.enqueues) _ h2 in
      let (_, _, h4) = >>=-done (check io.commits) _ h3 in
      subst
        (λ (x : Db × Row). Created p db x.0 (mask_record_for_read p.entity rc p.snapshot x.1) x.1)
        (done-injective h4)
        (record { rows = refl; outbox = refl; events = refl; row = refl; masked = refl })

  commit_create-done :
      (call : CreateCall) (p : PreparedCreate) (db : Db) (shown : Row)
      → (commit_create parse_uuid s rc number_text json_text io call p db).1 ≡ done shown
      → (new : Row) × Created p db
          (commit_create parse_uuid s rc number_text json_text io call p db).0
          shown
          new
  unfolding commit_create
  commit_create-done call p db shown h =
      of_write (write_create parse_uuid s rc number_text json_text io p db) refl h
    where
      of_write :
          (w : Response (Db × Row))
          → write_create parse_uuid s rc number_text json_text io p db ≡ w
          → (answer_create parse_uuid s rc number_text json_text io call p db w).1 ≡ done shown
          → (new : Row) × Created p db
              (answer_create parse_uuid s rc number_text json_text io call p db w).0
              shown
              new
      of_write (done (db', new)) e k =
          let c = write_create-done p db db' new e in
          (
            new,
            Created-record_audit p db db' shown new (created_entry call p new)
                (subst (λ r. Created p db db' r new) (done-injective k) c),
          )
      of_write (refused r) e k = cc
      of_write failed e k = cc

  -- The row of a create: live, of the caller's tenant, in its first version, with the identifier of
  -- the database and the prepared data and status.
  abbrev pub first_version : PreparedCreate → Row
  first_version p = record {
    table = p.entity.table_name;
    id = io.new_id;
    tenant_id = p.tenant;
    code = code_of p.next_data;
    status = p.status;
    fields = p.next_data;
    version = 1;
    deleted = false;
    updated_by = p.user_id;
  }

  -- After a create that returned, a read of the new identifier finds the new row, if the identifier
  -- was not in use: it is of the caller's tenant, live and in its first version, with the prepared
  -- data and status. Every old row is still there, one outbox event names the record and its data,
  -- no workflow event is added, and the row that is returned is the new one, masked for the caller.
  pub commit_create-fetch_existing :
      (call : CreateCall) (p : PreparedCreate) (db : Db) (shown : Row)
      → (commit_create parse_uuid s rc number_text json_text io call p db).1 ≡ done shown
      → find_row (is_live p.entity.table_name io.new_id p.tenant) db.rows ≡ none
      → (fetch_existing
            (commit_create parse_uuid s rc number_text json_text io call p db).0
            p.entity
            io.new_id
            p.tenant
          ≡ some (first_version p))
        × ((commit_create parse_uuid s rc number_text json_text io call p db).0.rows
            ≡ db.rows ++ first_version p ∷ [])
        × ((commit_create parse_uuid s rc number_text json_text io call p db).0.events ≡ db.events)
        × ((commit_create parse_uuid s rc number_text json_text io call p db).0.outbox
            ≡ db.outbox
              ++ record {
                topic = append p.entity.name ".record.created";
                aggregate_type = p.entity.name;
                aggregate_id = io.new_id;
                payload = object (
                    ("tenantId", str p.tenant)
                    ∷ ("recordId", str io.new_id)
                    ∷ ("data", object p.next_data)
                    ∷ []);
              }
                ∷ [])
        × (shown ≡ mask_record_for_read p.entity rc p.snapshot (first_version p))
  unfolding fetch_existing created
  commit_create-fetch_existing call p db shown h fresh =
      let (new, c) = commit_create-done call p db shown h in
      let rows = c.rows ∙ ap (λ r. db.rows ++ r ∷ []) c.row in
      let read =
        find_row-append (is_live p.entity.table_name io.new_id p.tenant) db.rows (first_version p)
          fresh (is_live_self (first_version p) refl) in
      (
        ap (find_row (is_live p.entity.table_name io.new_id p.tenant)) rows ∙ read,
        rows,
        c.events,
        c.outbox ∙ ap (λ r. db.outbox ++ created_event p r ∷ []) c.row,
        c.masked ∙ ap (mask_record_for_read p.entity rc p.snapshot) c.row,
      )
