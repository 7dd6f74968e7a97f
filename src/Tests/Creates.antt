-- ===== src/Tests/Creates.antt =====
-- The theorems of a create at one order.
use metap.Prelude.{[], ◌∷◌, ◌++◌, some, none, ◌≡◌, ◌⊎◌, lookup, insert, refl, String}
use metap.Json.{Json, str, object, as_string}
use metap.Workflow.{get_initial_status}
use metap.Permission.Context.{is_admin, oauth_scope, scope_permits}
use metap.Permission.Evaluate.{evaluate_policies, evaluate_policy_row}
use metap.Control.PolicyStore.{find_context_policies, load_all_policies}
use metap.Permission.Snapshot.{
  add_row, add_rows, permission_snapshot_from_rows, by_field, readable, filter_readable_fields,
  writable, writable_fields, first_unwritable, assert_writable_fields,
}
use metap.Permission.Snapshot.Grouping.{group_at, push_at}
use metap.Permission.Service.{scoped_tenant, check_action, load_permission_snapshot}
use metap.Metadata.Entity.{system_field_names}
use metap.Crud.Store.{find_row, fetch_existing, done, IsStopped, mask_record_for_read}
use metap.Crud.Validation.{validate_payload}
use metap.Crud.Fields.{reject_system_fields, recompute_fields}
use metap.Crud.Unique.{unique_violation}
use metap.Crud.Create.{prepare_create, commit_create, create_record, complete}
use metap.Crud.Create.State.{prepare_create_state}
use metap.Crud.Create.Laws.{commit_create-fetch_existing}
use metap.Tests.Calls.{create_smooth, create_violating, create_call, prepared_create, created_order}
use metap.Tests.Data.{parse_any, clerk, service, orders, tables, approval}

prepare_create_order :
    prepare_create parse_any service clerk (λ _. "0") (λ _. "{}") create_smooth create_call
    ≡ done prepared_create
unfolding prepare_create scoped_tenant check_action scope_permits oauth_scope is_admin
    find_context_policies evaluate_policies evaluate_policy_row load_permission_snapshot
    load_all_policies permission_snapshot_from_rows add_rows add_row push_at group_at lookup insert
    assert_writable_fields writable_fields writable first_unwritable by_field reject_system_fields
    system_field_names validate_payload recompute_fields get_initial_status complete
prepare_create_order = refl

commit_create_order :
    (commit_create parse_any service clerk
      (λ _. "0")
      (λ _. "{}")
      create_smooth
      create_call
      prepared_create
      tables).1
    ≡ done created_order
unfolding commit_create mask_record_for_read filter_readable_fields readable lookup insert by_field
    permission_snapshot_from_rows add_rows add_row push_at group_at is_admin
commit_create_order = refl

violating-IsStopped :
    IsStopped
      (create_record parse_any service clerk
        (λ _. "0")
        (λ _. "{}")
        create_violating
        create_call
        tables).1
unfolding create_record scoped_tenant check_action scope_permits oauth_scope is_admin
    find_context_policies evaluate_policies evaluate_policy_row load_permission_snapshot
    load_all_policies permission_snapshot_from_rows add_rows add_row push_at group_at lookup insert
    assert_writable_fields writable_fields writable first_unwritable by_field reject_system_fields
    system_field_names validate_payload recompute_fields get_initial_status complete
    unique_violation
violating-IsStopped = tt

prepare_create_state_example :
    (status : String) × (raw : Json) × (prepared_create.status ≡ some status)
    × (lookup "status" prepared_create.next_data ≡ some raw)
    × ((as_string raw ≡ some status) ⊎ ((as_string raw ≡ none) × (status ≡ approval.initial_state)))
prepare_create_state_example =
    prepare_create_state parse_any service clerk (λ _. "0") (λ _. "{}") create_smooth create_call
      prepared_create approval prepare_create_order refl

commit_create-fetch_existing_example :
    (fetch_existing
        (commit_create parse_any service clerk
          (λ _. "0")
          (λ _. "{}")
          create_smooth
          create_call
          prepared_create
          tables).0
        orders
        "r3"
        "t1"
      ≡ some created_order)
    × ((commit_create parse_any service clerk
          (λ _. "0")
          (λ _. "{}")
          create_smooth
          create_call
          prepared_create
          tables).0.rows
        ≡ tables.rows ++ created_order ∷ [])
    × ((commit_create parse_any service clerk
          (λ _. "0")
          (λ _. "{}")
          create_smooth
          create_call
          prepared_create
          tables).0.events
        ≡ tables.events)
    × ((commit_create parse_any service clerk
          (λ _. "0")
          (λ _. "{}")
          create_smooth
          create_call
          prepared_create
          tables).0.outbox
        ≡ tables.outbox
          ++ record {
            topic = "orders.record.created";
            aggregate_type = "orders";
            aggregate_id = "r3";
            payload = object (
                ("tenantId", str "t1")
                ∷ ("recordId", str "r3")
                ∷ ("data", object prepared_create.next_data)
                ∷ []);
          }
            ∷ [])
    × (created_order ≡ mask_record_for_read orders clerk prepared_create.snapshot created_order)
unfolding find_row lookup
commit_create-fetch_existing_example =
    commit_create-fetch_existing parse_any service clerk (λ _. "0") (λ _. "{}") create_smooth
      create_call prepared_create tables created_order commit_create_order refl
