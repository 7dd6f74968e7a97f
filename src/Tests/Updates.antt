-- ===== src/Tests/Updates.antt =====
-- The theorems of an update at one order.
use metap.Prelude.{some, ◌≡◌, refl, lookup, insert, insert_all}
use metap.Json.{str}
use metap.Control.PolicyStore.{find_context_policies, load_all_policies}
use metap.Permission.Context.{is_admin, oauth_scope, scope_permits}
use metap.Permission.Evaluate.{evaluate_policy_row, evaluate_policies}
use metap.Permission.Snapshot.{
  add_row, add_rows, permission_snapshot_from_rows, snapshot_relation_fields, by_field, readable,
  filter_readable_fields, writable, writable_fields, first_unwritable, assert_writable_fields,
  can_perform_record_condition,
}
use metap.Permission.Snapshot.Grouping.{push_at}
use metap.Permission.Service.{check_action, load_permission_snapshot}
use metap.Crud.Validation.{validate_payload}
use metap.Crud.Enrich.{enrich_record_for_actions}
use metap.Tests.Calls.{update_call, prepared_update, updated_draft, update_smooth}
use metap.Tests.Data.{parse_any, clerk, service, tables, approval}
use metap.Crud.Store.{Row, done, fetch_existing, mask_record_for_read}
use metap.Metadata.Entity.{system_field_names}
use metap.Crud.Fields.{reject_system_fields, recompute_fields}
use metap.Crud.Update.{prepare_update, commit_update, update_record}
use metap.Crud.Update.Laws.{Updated, commit_update-done}
use metap.Crud.Update.Checks.{IsCheckedUpdate, prepare_update-IsCheckedUpdate, prepare_update_state}

prepare_update_draft :
    prepare_update parse_any service clerk (λ _. "0") (λ _. "{}") update_smooth update_call tables
    ≡ done prepared_update
unfolding lookup insert insert_all find_context_policies load_all_policies is_admin oauth_scope
    scope_permits snapshot_relation_fields evaluate_policy_row evaluate_policies add_row add_rows
    permission_snapshot_from_rows by_field writable writable_fields first_unwritable
    assert_writable_fields can_perform_record_condition push_at load_permission_snapshot
    validate_payload enrich_record_for_actions fetch_existing prepare_update check_action
    reject_system_fields system_field_names recompute_fields
prepare_update_draft = refl

commit_update_draft :
    (commit_update parse_any service clerk
      (λ _. "0")
      (λ _. "{}")
      update_smooth
      update_call
      prepared_update
      tables).1
    ≡ done updated_draft
unfolding lookup insert is_admin add_row add_rows permission_snapshot_from_rows by_field readable
    filter_readable_fields push_at fetch_existing mask_record_for_read update_record
    system_field_names
commit_update_draft = refl

commit_update-done_example :
    (old : Row) × (new : Row) × Updated parse_any service clerk
      (λ _. "0")
      (λ _. "{}")
      update_smooth
      update_call
      prepared_update
      tables
      (commit_update parse_any service clerk
        (λ _. "0")
        (λ _. "{}")
        update_smooth
        update_call
        prepared_update
        tables).0
      updated_draft
      old
      new
commit_update-done_example =
    commit_update-done parse_any service clerk (λ _. "0") (λ _. "{}") update_smooth update_call
      prepared_update tables updated_draft commit_update_draft

prepare_update-IsCheckedUpdate_example :
    IsCheckedUpdate parse_any service clerk
      (λ _. "0")
      (λ _. "{}")
      update_smooth
      update_call
      tables
      prepared_update
prepare_update-IsCheckedUpdate_example =
    prepare_update-IsCheckedUpdate parse_any service clerk (λ _. "0") (λ _. "{}") update_smooth
      update_call tables prepared_update prepare_update_draft

prepare_update_state_example : lookup "status" prepared_update.next_data ≡ some (str "draft")
unfolding lookup
prepare_update_state_example =
    prepare_update_state parse_any service clerk (λ _. "0") (λ _. "{}") update_smooth update_call
      tables prepared_update approval (str "draft") prepare_update_draft refl refl refl refl
