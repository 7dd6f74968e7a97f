-- ===== src/Permission/Service.antt =====
-- go/permission/permissionservice.go: the checks of one entity action, over the policy store of
-- go/control/policystore.go. Logging is left out.
pub mod Agreement
use metap.Prelude.{
  Bool, true, false, not, Option, none, some, List, ◌++◌, String, ◌==◌, if◌then◌else◌,
}
use metap.Permission.Context.{
  RequestContext, EntityAction, transition, action_name, transition_action_policy, is_admin,
  scope_permits, PermissionDecision, permitted, forbidden,
}
use metap.Permission.Condition.{PolicyRow}
use metap.Permission.Evaluate.{evaluate_policies, is_allowed, verdict_allow}
use metap.Permission.Snapshot.{PermissionSnapshot, permission_snapshot_from_rows, context_verdict}
use metap.Control.PolicyStore.{PolicyDb, find_context_policies, load_all_policies}

pub data ServiceError : Type 0 where
  tenant_missing tenant_malformed store_failed : ServiceError

pub data Result {ℓ} (A : Type ℓ) : Type ℓ where
  ok : A → Result A
  err : ServiceError → Result A

infixl 5 ◌>>=◌
abbrev pub ◌>>=◌ {ℓ κ} : {A : Type ℓ} {B : Type κ} → Result A → (A → Result B) → Result B
ok a >>= f = f a
err e >>= f = err e

abbrev pub or_error {ℓ} : {A : Type ℓ} → ServiceError → Option A → Result A
or_error e none = err e
or_error e (some a) = ok a

-- `parse_uuid` is uuid.Parse, which returns the canonical form.
module _ (parse_uuid : String → Option String) where
  unfoldable pub scoped_tenant : RequestContext → Result String
  scoped_tenant ctx =
      if ctx.tenant_id == ""
      then err tenant_missing
      else or_error tenant_malformed (parse_uuid ctx.tenant_id)

  unfoldable pub check_action :
      PolicyDb → RequestContext → String → EntityAction → Result PermissionDecision
  unfolding scoped_tenant
  check_action db ctx entity action =
      if not (scope_permits ctx entity action)
      then ok forbidden
      else if is_admin ctx
      then ok permitted
      else (do
        tenant ← scoped_tenant ctx
        rows ← or_error store_failed (find_context_policies db tenant entity (action_name action))
        ok (if is_allowed (evaluate_policies rows ctx none) then permitted else forbidden))

  unfoldable pub service_can_transition_action :
      PolicyDb → RequestContext → String → String → Result PermissionDecision
  unfolding scoped_tenant
  service_can_transition_action db ctx entity action =
      if not (scope_permits ctx entity transition)
      then ok forbidden
      else if is_admin ctx
      then ok permitted
      else (do
        tenant ← scoped_tenant ctx
        generic ←
            or_error store_failed (find_context_policies db tenant entity (action_name transition))
        specific ←
            or_error store_failed
              (find_context_policies db tenant entity (transition_action_policy action))
        ok (context_verdict (generic ++ specific) ctx))

-- LoadPermissionSnapshot, of a service without a cache.
unfoldable pub load_permission_snapshot : PolicyDb → String → String → Result PermissionSnapshot
load_permission_snapshot db tenant entity = do
  rows ← or_error store_failed (load_all_policies db tenant entity)
  ok (permission_snapshot_from_rows rows)
