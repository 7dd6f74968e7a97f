-- ===== src/Tests/Deletes.antt =====
-- The theorems of a delete at one order, with and without a line that refers to it.
use metap.Prelude.{◌≡◌, lookup, insert, refl}
use metap.Crud.Store.{Row, done, IsStopped, find_row, fetch_existing, mask_record_for_read}
use metap.Crud.References.{find_referencing_records, referencing_fields}
use metap.Crud.Delete.{commit_delete, delete_record}
use metap.Crud.Delete.Laws.{Deleted, commit_delete-done}
use metap.Permission.Service.{scoped_tenant, check_action, load_permission_snapshot}
use metap.Permission.Context.{scope_permits, oauth_scope, is_admin}
use metap.Control.PolicyStore.{find_context_policies, load_all_policies}
use metap.Permission.Evaluate.{evaluate_policies, evaluate_policy_row}
use metap.Crud.Enrich.{enrich_record_for_actions}
use metap.Permission.Snapshot.{
  snapshot_relation_fields, permission_snapshot_from_rows, add_rows, add_row,
  can_perform_record_condition, filter_readable_fields, readable, by_field,
}
use metap.Permission.Snapshot.Grouping.{group_at, push_at}
use metap.Tests.Calls.{delete_smooth, delete_call, prepared_delete, removed_draft}
use metap.Tests.Data.{parse_any, clerk, service, registry, tables, tables_with_line}

commit_delete_draft :
    (commit_delete parse_any service registry clerk delete_smooth delete_call prepared_delete
      tables).1
    ≡ done removed_draft
unfolding commit_delete find_referencing_records referencing_fields mask_record_for_read
    filter_readable_fields readable lookup insert by_field permission_snapshot_from_rows add_rows
    add_row push_at is_admin find_row
commit_delete_draft = refl

referenced-IsStopped :
    IsStopped
      (delete_record parse_any service registry clerk delete_smooth delete_call tables_with_line).1
unfolding delete_record scoped_tenant check_action scope_permits oauth_scope is_admin
    find_context_policies evaluate_policies evaluate_policy_row fetch_existing
    load_permission_snapshot load_all_policies enrich_record_for_actions snapshot_relation_fields
    group_at lookup permission_snapshot_from_rows add_rows add_row push_at find_referencing_records
    referencing_fields can_perform_record_condition insert
referenced-IsStopped = tt

commit_delete-done_example :
    (old : Row) × Deleted parse_any service registry clerk delete_smooth delete_call prepared_delete
      tables
      (commit_delete parse_any service registry clerk delete_smooth delete_call prepared_delete
        tables).0
      old
commit_delete-done_example =
    commit_delete-done parse_any service registry clerk delete_smooth delete_call prepared_delete
      tables removed_draft commit_delete_draft
