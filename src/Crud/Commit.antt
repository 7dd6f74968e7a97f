-- ===== src/Crud/Commit.antt =====
-- The write transaction of a transition (go/crud/transition.go, with RecordEvent and EmitTransitioned
-- of go/workflow/workflow.go), and the audit entry that follows it.
use metap.Prelude.{[], ◌∷◌, ◌++◌}
use metap.Permission.Context.{RequestContext}
use metap.Crud.Enrich.{Service, record_audit}
use metap.Crud.Store
use metap.Crud.Store.{Db, Row, Response, done, failed, is_at, mask_record_for_read}
use metap.Crud.Tx.{Tx, ◌>>=◌, ◌>>◌, pure, exec, update_returning, in_transaction}
use metap.Crud.Call.{Io, Call, Prepared, transitioned, event_of, outbox_of, entry_of}

-- RecordEvent
abbrev pub record_event : Call → Prepared → Row → Db → Db
record_event call p r db = record db { events = db.events ++ event_of call p r ∷ [] }

-- EmitTransitioned
abbrev pub emit_transitioned : Call → Prepared → Row → Db → Db
emit_transitioned call p r db = record db { outbox = db.outbox ++ outbox_of call p r ∷ [] }

module _ (s : Service) (io : Io) (rc : RequestContext) where
  -- The statements, in their order, and the row that the UPDATE returns.
  unfoldable pub write : Call → Prepared → Tx Row
  unfolding transitioned exec update_returning
  write call p = do
    new ←
        update_returning io.updates
          (is_at p.entity.table_name call.id p.tenant call.expected_version) (transitioned p)
    exec io.inserts_event (record_event call p new)
    exec io.enqueues (emit_transitioned call p new)
    pure new

  abbrev pub answer : Call → Prepared → Response Row × Db → Db × Response Row
  answer call p (done new, db) = (
    record_audit s p.entity (entry_of call p new) io.stores_audit db,
    done (mask_record_for_read p.entity rc p.snapshot new),
  )
  answer call p (Store.refused r, db) = (db, Store.refused r)
  answer call p (failed, db) = (db, failed)

  unfoldable pub commit : Call → Prepared → Db → Db × Response Row
  unfolding write in_transaction
  commit call p db = answer call p (in_transaction io.write_begin (write call p) io.commits db)
