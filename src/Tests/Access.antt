-- ===== src/Tests/Access.antt =====
-- The permission theorems at the policies of the orders.
use mathlib.Core.List.{Permᴰ}
use metap.Prelude.{
  keep, not, false, true, none, some, List, [], ◌∷◌, ◌≡◌, refl, lookup, any, if◌then◌else◌,
}
use metap.Tests.Calls.{approved_data}
use metap.Tests.Data.{parse_any, clerk, may_read, no_blocked, no_price, policies, draft_data}
use metap.Json.{str, object}
use metap.Permission.Context.{is_admin, read}
use metap.Permission.Condition.{
  attribute, eq, literal, all_of, any_of, cons, nil, PolicyRow, from_context, PolicyCondition,
}
use metap.Permission.Evaluate.{role_gate_passed, evaluate_policies, is_allowed}
use metap.Permission.Evaluate.Verdict.{
  combine, denies, allows, evaluate_policies_lem, evaluate_policies-Perm,
}
use metap.Permission.Snapshot.{
  permission_snapshot_from_rows, filter_readable_fields, assert_writable_fields, flags_from,
  match_stability_of, verdict_is_record_dependent, context_verdict, can_perform_entity_action,
}
use metap.Permission.Snapshot.Stability.{verdict_is_record_dependent_sound}
use metap.Permission.Snapshot.Masking.{
  is_open, blame, filter_readable_fields_lem, assert_writable_fields_lem,
}
use metap.Permission.Codec.{decoded, marshal_condition, unmarshal_condition}
use metap.Permission.Codec.Roundtrip.{unmarshal_condition-marshal_condition}
use metap.Permission.Explain.{explain_policies}
use metap.Permission.Explain.Agreement.{explain_policies_lem}
use metap.Permission.Service.{ok, ◌>>=◌, check_action, load_permission_snapshot, scoped_tenant}
use metap.Permission.Service.Agreement.{check_action-load_permission_snapshot}
use metap.Control.PolicyStore.{RoleActionGrant, sync_basic_policies}
use metap.Control.PolicyStore.Basic.{is_special, rows_for, sync_basic_policies_lem}

abbrev rows : List PolicyRow
rows = policies.policies

evaluate_policies_lem_example :
    evaluate_policies (may_read ∷ no_blocked ∷ []) clerk (some (object draft_data))
    ≡ combine
        (any (denies clerk (some (object draft_data))) (may_read ∷ no_blocked ∷ []))
        (any (allows clerk (some (object draft_data))) (may_read ∷ no_blocked ∷ []))
evaluate_policies_lem_example =
    evaluate_policies_lem clerk (some (object draft_data)) (may_read ∷ no_blocked ∷ [])

evaluate_policies-Perm_example :
    evaluate_policies (may_read ∷ no_blocked ∷ []) clerk (some (object draft_data))
    ≡ evaluate_policies (no_blocked ∷ may_read ∷ []) clerk (some (object draft_data))
evaluate_policies-Perm_example =
    evaluate_policies-Perm clerk (some (object draft_data)) ∣ Permᴰ.swap refl refl ∣₁

verdict_is_record_dependent_sound_example :
    evaluate_policies (no_price ∷ no_blocked ∷ []) clerk (some (object draft_data))
    ≡ evaluate_policies (no_price ∷ no_blocked ∷ []) clerk (some (object approved_data))
unfolding verdict_is_record_dependent flags_from match_stability_of role_gate_passed
verdict_is_record_dependent_sound_example =
    verdict_is_record_dependent_sound clerk (no_price ∷ no_blocked ∷ []) (object draft_data)
      (object approved_data) refl

filter_readable_fields_lem_example :
    lookup "status" (filter_readable_fields (permission_snapshot_from_rows rows) clerk draft_data)
    ≡ (if is_open "read" rows clerk (some (object draft_data)) "status"
        then lookup "status" draft_data
        else none)
unfolding is_admin
filter_readable_fields_lem_example = filter_readable_fields_lem rows clerk draft_data "status" refl

assert_writable_fields_lem_example :
    assert_writable_fields
      (permission_snapshot_from_rows rows)
      clerk
      ("note" ∷ "price" ∷ [])
      (some draft_data)
    ≡ blame (is_open "write" rows clerk (some (object draft_data))) ("note" ∷ "price" ∷ [])
unfolding is_admin
assert_writable_fields_lem_example =
    assert_writable_fields_lem rows clerk ("note" ∷ "price" ∷ []) (some draft_data) refl

abbrev condition : PolicyCondition
condition = any_of (
    cons (attribute "status" eq (literal (some (str "draft"))))
      (cons (all_of (cons (attribute "owner" eq (from_context "userId")) nil)) nil))

unmarshal_condition-marshal_condition_example :
    unmarshal_condition (marshal_condition condition) ≡ decoded condition
unmarshal_condition-marshal_condition_example =
    unmarshal_condition-marshal_condition condition ((tt, tt), (((tt, tt), tt), tt))

explain_policies_lem_example :
    ((explain_policies (may_read ∷ no_blocked ∷ []) clerk (some (object draft_data))).allowed
      ≡ is_allowed
          (evaluate_policies (may_read ∷ no_blocked ∷ []) clerk (some (object draft_data))))
    × ((explain_policies [] clerk (some (object draft_data))).allowed ≡ true)
    × ((context_verdict [] clerk).allowed ≡ false)
explain_policies_lem_example =
    explain_policies_lem clerk (some (object draft_data)) may_read (no_blocked ∷ [])

check_action-load_permission_snapshot_example :
    check_action parse_any policies clerk "orders" read ≡ (
      load_permission_snapshot policies "t1" "orders" >>= λ s.
      ok (can_perform_entity_action s clerk "orders" read))
unfolding scoped_tenant
check_action-load_permission_snapshot_example =
    check_action-load_permission_snapshot parse_any policies clerk "t1" "orders" read refl refl

abbrev grants : List RoleActionGrant
grants = record { role = some "clerk"; action = "read" } ∷ []

sync_basic_policies_lem_example :
    (keep
        (is_special "t1" "orders")
        (sync_basic_policies policies (λ _. "new") "t1" "orders" grants none).0.policies
      ≡ keep (is_special "t1" "orders") policies.policies)
    × (keep
          (λ p. not (is_special "t1" "orders" p))
          (sync_basic_policies policies (λ _. "new") "t1" "orders" grants none).0.policies
        ≡ rows_for (λ _. "new") 0 "t1" "orders" none grants)
sync_basic_policies_lem_example =
    sync_basic_policies_lem "t1" "orders" (λ _. "new") none policies grants refl
