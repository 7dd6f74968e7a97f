-- ===== src/Crud/Transition/Versions.antt =====
-- The version check of the write of a transition: what another write reads after it.
use metap.Prelude.{Bool, false, none, some, ◌≡◌, refl, sym, ap, ◌∙◌, arith}
use metap.Permission.Context.{RequestContext}
use metap.Metadata.Entity.{EntityDefinition}
use metap.Crud.Enrich.{Service, record_audit}
use metap.Audit.{Entry}
use metap.Crud.Rows.{IsNext, no_row_left, row_updated, found_live}
use metap.Crud.Store.{
  Db, Row, Response, done, refused, failed, IsStopped, is_at, find_row, update_rows, fetch_existing,
}
use metap.Crud.Call.{Io, Call, Prepared, entry_of}
use metap.Crud.Commit.{commit}
use metap.Crud.Transition.Writes.{rewritten, commit-done}

rewritten-IsNext : (p : Prepared) → IsNext (rewritten p)
rewritten-IsNext p = record {
  version = λ r. refl;
  table = λ r. refl;
  id = λ r. refl;
  tenant_id = λ r. refl;
}

stopped {ℓ} : {A : Type ℓ} (r : Response A) → ((a : A) → r ≡ done a → ⊥) → IsStopped r
stopped (done a) f = f a refl
stopped (refused x) f = tt
stopped failed f = tt

-- Without a live record at the expected version nothing is returned.
missing-IsStopped :
    (s : Service) (io : Io) (rc : RequestContext) (call : Call) (p : Prepared) (db : Db)
    → find_row (is_at p.entity.table_name call.id p.tenant call.expected_version) db.rows ≡ none
    → IsStopped (commit s io rc call p db).1
missing-IsStopped s io rc call p db h = stopped (commit s io rc call p db).1 (λ shown e.
    let (db', old, w, after, mask) = commit-done s io rc call p db shown e in
    let e' : none ≡ some old = sym h ∙ w.found in cc)

module _ (s : Service) (io : Io) (rc : RequestContext) where
  rows-record_audit :
      (entity : EntityDefinition) (e : Entry) (stores : Bool) (db : Db)
      → (record_audit s entity e stores db).rows ≡ db.rows
  unfolding record_audit
  rows-record_audit entity e stores db = ground arith

  rows-commit :
      (call : Call) (p : Prepared) (db : Db) (shown : Row)
      → (commit s io rc call p db).1 ≡ done shown
      → (commit s io rc call p db).0.rows
        ≡ update_rows
            (is_at p.entity.table_name call.id p.tenant call.expected_version)
            (rewritten p)
            db.rows
  rows-commit call p db shown h =
      let (db', old, w, after, mask) = commit-done s io rc call p db shown h in
      ap (λ (d : Db). d.rows) after
      ∙ rows-record_audit p.entity (entry_of call p (rewritten p old)) io.stores_audit db'
      ∙ w.rows

  -- After a write that returned, a read of the record finds the rewritten row, if the row that a
  -- read found before had the version that the call expected.
  pub commit-fetch_existing :
      (call : Call) (p : Prepared) (db : Db) (shown old : Row)
      → (commit s io rc call p db).1 ≡ done shown
      → fetch_existing db p.entity call.id p.tenant ≡ some old
      → old.version ≡ call.expected_version
      → fetch_existing (commit s io rc call p db).0 p.entity call.id p.tenant
        ≡ some (rewritten p old)
  unfolding fetch_existing
  commit-fetch_existing call p db shown old h found at =
      let live : old.deleted ≡ false =
        found_live p.entity.table_name call.id p.tenant db.rows old found in
      rw (rows-commit call p db shown h) (
        row_updated p.entity.table_name call.id p.tenant call.expected_version (rewritten p)
          (rewritten-IsNext p) db.rows old found at live)

  -- No update is lost: after a write that returned, another write of the record that expects the
  -- same version does not return a result, whoever calls and however it was prepared.
  pub commit_once :
      (call call' : Call) (p p' : Prepared) (db : Db) (shown : Row) (s' : Service) (io' : Io)
      (rc' : RequestContext)
      → (commit s io rc call p db).1 ≡ done shown
      → p'.entity.table_name ≡ p.entity.table_name
      → call'.id ≡ call.id
      → p'.tenant ≡ p.tenant
      → call'.expected_version ≡ call.expected_version
      → IsStopped (commit s' io' rc' call' p' (commit s io rc call p db).0).1
  commit_once call call' p p' db shown s' io' rc' h table id tenant version =
      missing-IsStopped s' io' rc' call' p' (commit s io rc call p db).0 (
        rw (table, id, tenant, version, rows-commit call p db shown h)
          (no_row_left p.entity.table_name call.id p.tenant call.expected_version (rewritten p)
            (rewritten-IsNext p) db.rows))
