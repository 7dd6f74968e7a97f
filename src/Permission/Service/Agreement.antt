-- ===== src/Permission/Service/Agreement.antt =====
-- The check of the service against the check of a loaded snapshot, and what a permission rests on.
use metap.Prelude.{
  Bool, true, false, not, Option, none, some, List, [], ◌∷◌, String, ◌≡◌, refl, ◌⊎◌, inl, inr, ◌==◌,
  ◌&&◌, any, keep, arith, if◌then◌else◌,
}
use metap.Permission.Context.{
  RequestContext, EntityAction, transition, action_name, transition_action_policy, is_admin,
  scope_permits, PermissionDecision, permitted, forbidden,
}
use metap.Permission.Condition.{PolicyRow}
use metap.Permission.Evaluate.{evaluate_policies, is_allowed}
use metap.Permission.Evaluate.Verdict.{denies, allows, evaluate_policies_lem}
use metap.Permission.Snapshot.{can_perform_entity_action, can_transition_action, context_verdict}
use metap.Permission.Snapshot.Groups.{entity_row, context_group_snapshot}
use metap.Control.PolicyStore.{
  PolicyDb, of_entity, of_action, find_context_policies, load_all_policies,
}
use metap.Permission.Service.{
  Result, ok, err, store_failed, ◌>>=◌, or_error, scoped_tenant, check_action,
  service_can_transition_action, load_permission_snapshot,
}

keep-of_entity :
    (tenant entity action : String) (ps : List PolicyRow)
    → keep (entity_row "context" action) (keep (of_entity tenant entity) ps)
      ≡ keep (λ p. of_action tenant entity action p && p.field == "" && p.subject == "context") ps
keep-of_entity tenant entity action [] = refl
keep-of_entity tenant entity action (p ∷ ps) =
    ground (arith, keep-of_entity tenant entity action ps)

module _ (parse_uuid : String → Option String) (db : PolicyDb) (ctx : RequestContext) where
  -- For a caller whose tenant is known and a store that answers, the check of an entity action by
  -- the service is the check of the snapshot that the service loads.
  pub check_action-load_permission_snapshot :
      (tenant entity : String) (action : EntityAction)
      → scoped_tenant parse_uuid ctx ≡ ok tenant
      → db.reachable ≡ true
      → check_action parse_uuid db ctx entity action ≡ (
          load_permission_snapshot db tenant entity >>= λ s.
          ok (can_perform_entity_action s ctx entity action))
  unfolding check_action load_permission_snapshot can_perform_entity_action context_verdict
      find_context_policies load_all_policies
  check_action-load_permission_snapshot tenant entity action ht hr = ground (
    arith,
    context_group_snapshot (keep (of_entity tenant entity) db.policies) (action_name action),
    keep-of_entity tenant entity (action_name action) db.policies,
  )

  -- For a caller whose tenant is known and a store that answers, the service's check of one workflow
  -- action, which reads the policies of `transition` and those of `transition:<action>` together, is
  -- the check of the snapshot that the service loads.
  can_transition_action-load_permission_snapshot :
      (tenant entity action : String)
      → scoped_tenant parse_uuid ctx ≡ ok tenant
      → db.reachable ≡ true
      → service_can_transition_action parse_uuid db ctx entity action ≡ (
          load_permission_snapshot db tenant entity >>= λ s.
          ok (can_transition_action s ctx entity action))
  unfolding service_can_transition_action load_permission_snapshot can_transition_action
      find_context_policies load_all_policies
  can_transition_action-load_permission_snapshot tenant entity action ht hr =
      let rows = keep (of_entity tenant entity) db.policies in
      ground (
        arith,
        context_group_snapshot rows (action_name transition),
        context_group_snapshot rows (transition_action_policy action),
        keep-of_entity tenant entity (action_name transition) db.policies,
        keep-of_entity tenant entity (transition_action_policy action) db.policies,
      )

  -- What the policies of a store say of an entity action.
  Granted : String → EntityAction → Type 0
  Granted entity action =
      (tenant : String) × (rows : List PolicyRow) × (scoped_tenant parse_uuid ctx ≡ ok tenant)
      × (find_context_policies db tenant entity (action_name action) ≡ some rows)
      × (any (denies ctx none) rows ≡ false)
      × (any (allows ctx none) rows ≡ true)

  granted_by_rows :
      (rows : List PolicyRow) (d : PermissionDecision)
      → ok (if is_allowed (evaluate_policies rows ctx none) then permitted else forbidden) ≡ ok d
      → d.allowed ≡ true
      → (any (denies ctx none) rows ≡ false) × (any (allows ctx none) rows ≡ true)
  granted_by_rows rows d h a = ground (arith, evaluate_policies_lem ctx none rows)

  -- A permission of an entity action rests on the OAuth2 scope, also for an admin, and then on the
  -- admin role, or on the stored policies of the caller's tenant, of which one allows and none
  -- denies. A check that fails, or that finds no policy, never permits.
  check_action_permits :
      (entity : String) (action : EntityAction) (d : PermissionDecision)
      → check_action parse_uuid db ctx entity action ≡ ok d
      → d.allowed ≡ true
      → (scope_permits ctx entity action ≡ true) × ((is_admin ctx ≡ true) ⊎ Granted entity action)
  unfolding check_action Granted
  check_action_permits entity action d h a =
      by_tenant (scope_permits ctx entity action) (is_admin ctx) (scoped_tenant parse_uuid ctx) refl
        refl refl h
    where
      by_rows :
          (tenant : String) (found : Option (List PolicyRow))
          → scoped_tenant parse_uuid ctx ≡ ok tenant
          → find_context_policies db tenant entity (action_name action) ≡ found
          → (or_error store_failed found >>= λ rows.
              ok (if is_allowed (evaluate_policies rows ctx none) then permitted else forbidden))
            ≡ ok d
          → Granted entity action
      by_rows tenant none t f e = cc
      by_rows tenant (some rows) t f e =
          let g = granted_by_rows rows d e a in (tenant, rows, t, f, g.0, g.1)

      by_tenant :
          (scope admin : Bool) (r : Result String)
          → scope_permits ctx entity action ≡ scope
          → is_admin ctx ≡ admin
          → scoped_tenant parse_uuid ctx ≡ r
          → (if not scope
              then ok forbidden
              else if admin
              then ok permitted
              else (r >>= λ tenant.
                  or_error store_failed
                    (find_context_policies db tenant entity (action_name action))
                  >>= λ rows. ok (
                      if is_allowed (evaluate_policies rows ctx none)
                      then permitted
                      else forbidden)))
            ≡ ok d
          → (scope_permits ctx entity action ≡ true)
            × ((is_admin ctx ≡ true) ⊎ Granted entity action)
      by_tenant false admin r s m t e = ground arith
      by_tenant true true r s m t e = (s, inl m)
      by_tenant true false (err x) s m t e = cc
      by_tenant true false (ok tenant) s m t e = (s, inr (by_rows tenant _ t refl e))
