-- ===== src/Crud/Transition/Writes.antt =====
-- What the write of a transition changes.
use Prim.Native.String.{◌++◌ as append}
use metap.Prelude.{◌+◌, some, [], ◌∷◌, ◌++◌, ◌≡◌, ◌⊎◌, inl, inr, false, refl, sym, ap, ◌∙◌, arith}
use metap.Json.{str, object}
use metap.Permission.Context.{RequestContext}
use metap.Audit
use metap.Audit.{diff_json_objects}
use metap.Crud.Enrich.{Service, record_audit}
use metap.Crud.Rows.{found_version, found_live_at}
use metap.Crud.Store.{
  Db, Row, Response, done, refused, failed, is_at, find_row, done-injective, update_rows,
  mask_record_for_read,
}
use metap.Crud.Tx.{
  exec, pure, ◌>>◌, after_exec, after_returning, in_transaction, in_transaction-cases,
  in_transaction-done,
}
use metap.Crud.Call.{Io, Call, Prepared, transitioned, or_null_text, entry_of}
use metap.Crud.Commit.{record_event, emit_transitioned, write, commit, answer}

-- The row as a transition leaves it: the prepared data, the target state, the next version, and who
-- wrote it; the rest as it was.
abbrev pub rewritten : Prepared → Row → Row
rewritten p r = record r {
  fields = p.next_data;
  status = some p.to_state;
  version = r.version + 1;
  updated_by = p.user_id;
}

-- The tables after a write that found the row `old`: one row rewritten, one event in
-- workflow_events and one in the outbox, each with both states; the audit log as it was.
pub record Wrote (call : Call) (p : Prepared) (db db' : Db) (old : Row) : Type 0 where
  pub found :
      find_row (is_at p.entity.table_name call.id p.tenant call.expected_version) db.rows ≡ some old
  pub version : old.version ≡ call.expected_version
  pub live : old.deleted ≡ false
  pub rows :
      db'.rows
      ≡ update_rows
          (is_at p.entity.table_name call.id p.tenant call.expected_version)
          (rewritten p)
          db.rows
  pub events :
      db'.events
      ≡ db.events
        ++ record {
          tenant_id = p.tenant;
          entity = p.entity.name;
          record_id = old.id;
          action = call.action;
          from_state = p.from_state;
          to_state = p.to_state;
          actor = p.user_id;
        }
          ∷ []
  pub outbox :
      db'.outbox
      ≡ db.outbox
        ++ record {
          topic = append p.entity.name ".workflow.transitioned";
          aggregate_type = p.entity.name;
          aggregate_id = old.id;
          payload = object (
              ("tenantId", str p.tenant)
              ∷ ("recordId", str old.id)
              ∷ ("action", str call.action)
              ∷ ("from", str p.from_state)
              ∷ ("to", str p.to_state)
              ∷ ("actor", or_null_text p.user_id)
              ∷ []);
        }
          ∷ []
  pub audits : db'.audits ≡ db.audits

module _ (s : Service) (io : Io) (rc : RequestContext) where
  write-done :
      (call : Call) (p : Prepared) (db db' : Db) (new : Row)
      → write s io rc call p db ≡ (done new, db')
      → (old : Row) × (new ≡ rewritten p old) × Wrote call p db db' old
  unfolding write transitioned
  write-done call p db db' new h =
      let hit = is_at p.entity.table_name call.id p.tenant call.expected_version in
      let g = transitioned p in
      let rest = λ (r : Row).
        exec io.inserts_event (record_event call p r)
        >> (exec io.enqueues (emit_transitioned call p r) >> pure r) in
      let (old, found, h1) = after_returning io.updates hit g rest db db' h in
      let db1 = record db { rows = update_rows hit g db.rows } in
      let h2 =
        after_exec io.inserts_event (record_event call p (g old))
          (exec io.enqueues (emit_transitioned call p (g old)) >> pure (g old)) db1 db' h1 in
      let h3 =
        after_exec io.enqueues (emit_transitioned call p (g old)) (pure (g old))
          (record_event call p (g old) db1) db' h2 in
      let tables = ap (λ (x : Response Row × Db). x.1) h3 in
      (
        old,
        sym (done-injective (ap (λ (x : Response Row × Db). x.0) h3)),
        record {
          found = found;
          version =
              found_version p.entity.table_name call.id p.tenant call.expected_version db.rows old
                found;
          live =
              found_live_at p.entity.table_name call.id p.tenant call.expected_version db.rows old
                found;
          rows = sym (ap (λ (d : Db). d.rows) tables);
          events = sym (ap (λ (d : Db). d.events) tables);
          outbox = sym (ap (λ (d : Db). d.outbox) tables);
          audits = sym (ap (λ (d : Db). d.audits) tables);
        },
      )

  -- The tables that an answer leaves, without the audit log.
  tables-answer :
      (call : Call) (p : Prepared) (r : Response Row × Db)
      → ((answer s io rc call p r).0.rows ≡ r.1.rows)
        × ((answer s io rc call p r).0.events ≡ r.1.events)
        × ((answer s io rc call p r).0.outbox ≡ r.1.outbox)
  unfolding record_audit
  tables-answer call p (done new, db) = (ground arith, ground arith, ground arith)
  tables-answer call p (refused x, db) = (refl, refl, refl)
  tables-answer call p (failed, db) = (refl, refl, refl)

  answer-done :
      (call : Call) (p : Prepared) (r : Response Row × Db) (shown : Row)
      → (answer s io rc call p r).1 ≡ done shown
      → (db' : Db) × (new : Row) × (r ≡ (done new, db'))
        × ((answer s io rc call p r).0
            ≡ record_audit s p.entity (entry_of call p new) io.stores_audit db')
        × (shown ≡ mask_record_for_read p.entity rc p.snapshot new)
  answer-done call p (done new, db') shown h = (db', new, refl, refl, sym (done-injective h))
  answer-done call p (refused x, db') shown h = cc
  answer-done call p (failed, db') shown h = cc

  -- The tables and the answer of a write that returned: the audit entry is stored after the
  -- transaction.
  abbrev pub Committed : Call → Prepared → Db → Row → Type 0
  Committed call p db shown =
      (db' : Db) × (old : Row) × Wrote call p db db' old
      × ((commit s io rc call p db).0
          ≡ record_audit s p.entity
              (record {
                tenant_id = p.tenant;
                entity = p.entity.name;
                record_id = old.id;
                action = Audit.transition;
                transition_action = some call.action;
                actor_user_id = p.user_id;
                reason = call.reason;
                diff = diff_json_objects p.existing.fields p.next_data;
                version_after = some (old.version + 1);
              })
              io.stores_audit db')
      × (shown ≡ mask_record_for_read p.entity rc p.snapshot (rewritten p old))

  -- A write that returns found a live record of the caller's tenant at the version that the call
  -- expected. It rewrites that row with the prepared data, the target state as status and the next
  -- version, and adds one workflow event and one outbox event, each from the stored state to the
  -- target. Then the audit entry follows, with the difference between the data that the precheck
  -- read and the data written, and the row that is returned is masked for the caller.
  pub commit-done :
      (call : Call) (p : Prepared) (db : Db) (shown : Row)
      → (commit s io rc call p db).1 ≡ done shown
      → Committed call p db shown
  unfolding commit
  commit-done call p db shown h =
      let (db', new, e, after, mask) =
        answer-done call p (in_transaction io.write_begin (write s io rc call p) io.commits db)
          shown h in
      let (old, e', w) =
        write-done call p db db' new
          (in_transaction-done io.write_begin (write s io rc call p) io.commits db db' new e) in
      (
        db',
        old,
        w,
        after ∙ ap (λ r. record_audit s p.entity (entry_of call p r) io.stores_audit db') e',
        mask ∙ ap (mask_record_for_read p.entity rc p.snapshot) e',
      )

  -- The row, the workflow event and the outbox event are written together or not at all, whatever
  -- statement fails and however Commit ends, the case included in which it returns an error after
  -- the transaction has been applied: either the three tables are as they were, or each of them is
  -- as after a write that found the record.
  pub commit_together :
      (call : Call) (p : Prepared) (db : Db)
      → (((commit s io rc call p db).0.rows ≡ db.rows)
          × ((commit s io rc call p db).0.events ≡ db.events)
          × ((commit s io rc call p db).0.outbox ≡ db.outbox))
        ⊎ ((db' : Db) × (old : Row) × Wrote call p db db' old
            × ((commit s io rc call p db).0.rows ≡ db'.rows)
            × ((commit s io rc call p db).0.events ≡ db'.events)
            × ((commit s io rc call p db).0.outbox ≡ db'.outbox))
  unfolding commit
  commit_together call p db =
      let r = in_transaction io.write_begin (write s io rc call p) io.commits db in
      let (rows, events, outbox) = tables-answer call p r in
      elim (in_transaction-cases io.write_begin (write s io rc call p) io.commits db) [
        | inl same ↦ inl (
          rows ∙ ap (λ (d : Db). d.rows) same,
          events ∙ ap (λ (d : Db). d.events) same,
          outbox ∙ ap (λ (d : Db). d.outbox) same,
        )
        | inr (new, e) ↦
            let (old, e', w) = write-done call p db r.1 new e in
            inr (r.1, old, w, rows, events, outbox)
      ]
