-- ===== src/Tests/Writes.antt =====
-- The theorems of the record store at one order.
use metap.Prelude.{◌⊎◌, some, ◌≡◌, refl, lookup, insert, insert_all}
use metap.Json.{str}
use metap.Audit.{diff_json_objects}
use metap.Control.PolicyStore.{find_context_policies, load_all_policies}
use metap.Permission.Context.{is_admin, oauth_scope, scope_permits, to_value}
use metap.Permission.Resolve.{resolve_value, resolve_attribute_path, resolve_attribute}
use metap.Permission.Evaluate.{
  match_operator, evaluate_policy_row, evaluate_policies, evaluate_condition,
}
use metap.Permission.Snapshot.{
  add_row, add_rows, permission_snapshot_from_rows, context_verdict, snapshot_relation_fields,
  by_field, readable, filter_readable_fields, writable, writable_fields, first_unwritable,
  assert_writable_fields, can_perform_record_condition,
}
use metap.Permission.Snapshot.Grouping.{push_at}
use metap.Permission.Service.{service_can_transition_action, load_permission_snapshot}
use metap.Workflow.{
  find_transition, run_guard, run_validator, uses_workflow_context, with_workflow_context,
  apply_set_fields,
}
use metap.Crud.Validation.{validate_payload}
use metap.Crud.Enrich.{enrich_record_for_actions}
use metap.Tests.Calls.{smooth, approve_call, prepared, approved, approved_data}
use metap.Tests.Data.{
  parse_any, clerk, service, tables, approval, approve, orders, draft, draft_data,
}
use metap.Crud.Transition.Versions.{commit-fetch_existing, commit_once}
use metap.Crud.Transition.Writes.{rewritten, Wrote, commit-done, commit_together, Committed}
use metap.Crud.Transition.Checks.{IsChecked, prepare-IsChecked, prepare_state}
use metap.Crud.Validation.Accepts.{Every, IsGood, validate_payload-IsGood}
use metap.Audit.Laws.{Expected, diff_json_objects_lem}
use metap.Crud.Validation.{accepted}
use metap.Crud.Store.{
  update_rows, Db, Row, failed, done, IsStopped, fetch_existing, mask_record_for_read,
}
use metap.Crud.Transition.{prepare}
use metap.Crud.Commit.{commit}
use metap.Crud.Tx.{unconfirmed}
use metap.Crud.Call.{Io}

prepare_draft : prepare parse_any service smooth clerk approve_call tables ≡ done prepared
unfolding lookup insert insert_all find_context_policies load_all_policies is_admin oauth_scope
    scope_permits to_value resolve_value resolve_attribute_path resolve_attribute
    snapshot_relation_fields match_operator evaluate_policy_row evaluate_policies evaluate_condition
    add_row add_rows permission_snapshot_from_rows context_verdict by_field writable writable_fields
    first_unwritable assert_writable_fields can_perform_record_condition push_at
    service_can_transition_action load_permission_snapshot find_transition run_guard run_validator
    uses_workflow_context with_workflow_context apply_set_fields validate_payload
    enrich_record_for_actions fetch_existing prepare
prepare_draft = refl

commit_draft : (commit service smooth clerk approve_call prepared tables).1 ≡ done approved
unfolding lookup insert is_admin add_row add_rows permission_snapshot_from_rows by_field readable
    filter_readable_fields push_at fetch_existing mask_record_for_read commit
commit_draft = refl

commit-done_example : Committed service smooth clerk approve_call prepared tables approved
commit-done_example =
    commit-done service smooth clerk approve_call prepared tables approved commit_draft

commit-fetch_existing_example :
    fetch_existing (commit service smooth clerk approve_call prepared tables).0 orders "r1" "t1"
    ≡ some (rewritten prepared draft)
unfolding fetch_existing
commit-fetch_existing_example =
    commit-fetch_existing service smooth clerk approve_call prepared tables approved draft
      commit_draft refl refl

commit_once_example :
    IsStopped
      (commit service smooth clerk approve_call prepared
        (commit service smooth clerk approve_call prepared tables).0).1
commit_once_example =
    commit_once service smooth clerk approve_call approve_call prepared prepared tables approved
      service smooth clerk commit_draft refl refl refl refl

prepare-IsChecked_example : IsChecked parse_any service smooth clerk approve_call tables prepared
prepare-IsChecked_example =
    prepare-IsChecked parse_any service smooth clerk approve_call tables prepared prepare_draft

prepare_state_example : lookup "status" approved_data ≡ some (str "approved")
unfolding find_transition
prepare_state_example =
    prepare_state parse_any service smooth clerk approve_call tables prepared approval approve
      prepare_draft refl refl refl refl

validate_draft : validate_payload parse_any orders draft_data ≡ accepted draft_data
unfolding lookup validate_payload
validate_draft = refl

validate_payload-IsGood_example :
    Every (λ f. IsGood parse_any f (lookup f.name draft_data)) orders.fields
validate_payload-IsGood_example =
    validate_payload-IsGood parse_any orders draft_data draft_data validate_draft

diff_json_objects_lem_example :
    Expected
      (lookup "status" draft_data)
      (lookup "status" approved_data)
      (lookup "status" (diff_json_objects draft_data approved_data))
diff_json_objects_lem_example = diff_json_objects_lem "status" draft_data approved_data

-- Commit returns an error, and the transaction has been applied.
abbrev unconfirmed_commit : Io
unconfirmed_commit = record smooth { commits = unconfirmed }

commit_together_example :
    (((commit service unconfirmed_commit clerk approve_call prepared tables).0.rows ≡ tables.rows)
      × ((commit service unconfirmed_commit clerk approve_call prepared tables).0.events
          ≡ tables.events)
      × ((commit service unconfirmed_commit clerk approve_call prepared tables).0.outbox
          ≡ tables.outbox))
    ⊎ ((db' : Db) × (old : Row) × Wrote approve_call prepared tables db' old
        × ((commit service unconfirmed_commit clerk approve_call prepared tables).0.rows ≡ db'.rows)
        × ((commit service unconfirmed_commit clerk approve_call prepared tables).0.events
            ≡ db'.events)
        × ((commit service unconfirmed_commit clerk approve_call prepared tables).0.outbox
            ≡ db'.outbox))
commit_together_example =
    commit_together service unconfirmed_commit clerk approve_call prepared tables

-- The row is written although the caller sees an error.
unconfirmed_is_written :
    ((commit service unconfirmed_commit clerk approve_call prepared tables).1 ≡ failed)
    × (fetch_existing
          (commit service unconfirmed_commit clerk approve_call prepared tables).0
          orders
          "r1"
          "t1"
        ≡ some (rewritten prepared draft))
unfolding commit fetch_existing update_rows
unconfirmed_is_written = (refl, refl)
