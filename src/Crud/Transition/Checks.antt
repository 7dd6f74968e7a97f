-- ===== src/Crud/Transition/Checks.antt =====
-- What has been checked when a transition is ready to be written.
use metap.Prelude.{
  [], ◌∷◌, true, false, Option, some, String, ◌≡◌, refl, sym, ap, ◌∙◌, lookup, any, keys, mem_text,
}
use mathlib.Core.Path.{subst}
use metap.Json.{str, JsonObject}
use metap.Permission.Context.{transition, RequestContext, PermissionDecision}
use metap.Permission.Service
use metap.Permission.Service.{
  service_can_transition_action, scoped_tenant, load_permission_snapshot,
}
use metap.Permission.Snapshot.{can_perform_record_condition}
use metap.Metadata.Entity.{EntityWorkflow, WorkflowTransition}
use metap.Workflow.{find_transition}
use metap.Crud.Validation.Accepts.{is_reference_at}
use metap.Crud.Enrich.{Service, enrich_record_for_actions}
use metap.Crud.Store.{
  Db, done, >>=-done, done-injective, or_refuse-done, or_refuse, of_service, begin, check, permit,
  fetch_existing, parse_user_id,
}
use metap.Crud.Inversions.{permit-done, of_service-done}
use metap.Crud.Transition.Computed.{Computed, Merges, next_data_of-done, Computed-state}
use metap.Crud.Call.{Io, Call, Caller, Loaded, Prepared}
use metap.Crud.Transition.{authorize, load, choose, state_of, actors_for, next_data_of, prepare}

module _ (parse_uuid : String → Option String) (s : Service) (io : Io) (rc : RequestContext) where
  pub record IsAuthorized (call : Call) (c : Caller) : Type 0 where
    pub entity : s.find_entity call.entity_name ≡ some c.entity
    pub decision : PermissionDecision
    pub decided :
        service_can_transition_action parse_uuid s.policies rc c.entity.name call.action
        ≡ Service.ok decision
    pub allowed : decision.allowed ≡ true

  authorize-done :
      (call : Call) (c : Caller) → authorize parse_uuid s io rc call ≡ done c → IsAuthorized call c
  unfolding authorize
  authorize-done call c h =
      let (tenant, _, h1) = >>=-done (of_service (scoped_tenant parse_uuid rc)) _ h in
      let (_, _, h2) = >>=-done (check io.registry_loads) _ h1 in
      let (entity, e, h3) =
        >>=-done (or_refuse 404 "entity_not_found" (s.find_entity call.entity_name)) _ h2 in
      let (d, f, h4) =
        >>=-done
          (of_service
            (service_can_transition_action parse_uuid s.policies rc entity.name call.action))
          _ h3 in
      let (_, a, h5) = >>=-done (permit d) _ h4 in
      subst (IsAuthorized call) (done-injective h5) (record {
        entity = or_refuse-done _ _ _ e;
        decision = d;
        decided = of_service-done _ f;
        allowed = permit-done d a;
      })

  -- The stored record, the last actors of its events, the policies, and the permission to take a
  -- transition of this record.
  pub record IsPermitted (call : Call) (db : Db) (c : Caller) (l : Loaded) : Type 0 where
    pub same : l.caller ≡ c
    pub existing : fetch_existing db l.entity call.id l.tenant ≡ some l.existing
    pub actors : actors_for parse_uuid s io rc l.entity l.tenant call.id db ≡ done l.actors
    pub snapshot :
        load_permission_snapshot s.policies l.tenant l.entity.name ≡ Service.ok l.snapshot
    pub enriched : JsonObject
    pub enrichment :
        enrich_record_for_actions parse_uuid s db l.tenant l.entity l.snapshot
          (transition ∷ [])
          l.existing.fields
          io.enrich_reads
        ≡ done enriched
    pub allowed : (can_perform_record_condition l.snapshot rc enriched transition).allowed ≡ true

  load-done :
      (call : Call) (db : Db) (c : Caller) (l : Loaded)
      → load parse_uuid s io rc call db c ≡ done l
      → IsPermitted call db c l
  unfolding load
  load-done call db c l h =
      let (_, _, h1) = >>=-done (begin io.precheck_begin) _ h in
      let (_, _, h2) = >>=-done (check io.fetches) _ h1 in
      let (existing, x, h3) =
        >>=-done (or_refuse 404 "record_not_found" (fetch_existing db c.entity call.id c.tenant)) _
          h2 in
      let (actors, ac, h4) =
        >>=-done (actors_for parse_uuid s io rc c.entity c.tenant call.id db) _ h3 in
      let (_, _, h5) = >>=-done (check io.precheck_commits) _ h4 in
      let (snapshot, sn, h6) =
        >>=-done (of_service (load_permission_snapshot s.policies c.tenant c.entity.name)) _ h5 in
      let (enriched, en, h7) =
        >>=-done
          (enrich_record_for_actions parse_uuid s db c.tenant c.entity snapshot (transition ∷ [])
            existing.fields io.enrich_reads)
          _ h6 in
      let (_, rd, h8) =
        >>=-done (permit (can_perform_record_condition snapshot rc enriched transition)) _ h7 in
      subst (IsPermitted call db c) (done-injective h8) (record {
        same = refl;
        existing = or_refuse-done _ _ _ x;
        actors = ac;
        snapshot = of_service-done _ sn;
        enriched = enriched;
        enrichment = en;
        allowed = permit-done (can_perform_record_condition snapshot rc enriched transition) rd;
      })

  -- The transition that was chosen for a loaded record, and what was computed for it.
  pub record IsChosen (call : Call) (l : Loaded) (p : Prepared) (w : EntityWorkflow)
      (t : WorkflowTransition) (valid merged : JsonObject) : Type 0 where
    pub loaded : p.loaded ≡ l
    pub workflow : l.entity.workflow ≡ some w
    pub state : state_of w l.existing.fields ≡ done p.from_state
    pub declared : find_transition l.entity call.action p.from_state ≡ some t
    pub target : p.to_state ≡ t.target
    pub computed :
        Computed parse_uuid s io rc l.entity w t l.existing l.actors p.next_data valid merged
    pub payload : Merges l.snapshot rc l.existing.fields call.payload merged
    pub user : parse_user_id parse_uuid rc ≡ done p.user_id

  abbrev pub Chosen : Call → Loaded → Prepared → Type 0
  Chosen call l p =
      (w : EntityWorkflow) × (t : WorkflowTransition) × (valid : JsonObject) × (merged : JsonObject)
      × IsChosen call l p w t valid merged

  choose-done :
      (call : Call) (l : Loaded) (p : Prepared)
      → choose parse_uuid s io rc call l ≡ done p
      → Chosen call l p
  unfolding choose
  choose-done call l p h =
      let (w, f, h1) = >>=-done (or_refuse 400 "no_workflow" l.entity.workflow) _ h in
      let (from, g, h2) = >>=-done (state_of w l.existing.fields) _ h1 in
      let (t, i, h3) =
        >>=-done (or_refuse 409 "invalid_transition" (find_transition l.entity call.action from)) _
          h2 in
      let (next, n, h4) =
        >>=-done
          (next_data_of parse_uuid s io rc l.entity l.snapshot w t l.existing l.actors call.payload)
          _ h3 in
      let (user, us, h5) = >>=-done (parse_user_id parse_uuid rc) _ h4 in
      let (valid, merged, m, mp) =
        next_data_of-done parse_uuid s io rc l.entity l.snapshot w t l.existing l.actors
          call.payload next n in
      subst (Chosen call l) (done-injective h5) (
        w,
        t,
        valid,
        merged,
        record {
          loaded = refl;
          workflow = or_refuse-done _ _ _ f;
          state = g;
          declared = or_refuse-done _ _ _ i;
          target = refl;
          computed = m;
          payload = mp;
          user = us;
        },
      )

  -- What the precheck has found.
  pub record IsChecked (call : Call) (db : Db) (p : Prepared) : Type 0 where
    pub authorized : IsAuthorized call p.caller
    pub permitted : IsPermitted call db p.caller p.loaded
    pub chosen : Chosen call p.loaded p

  -- A transition that is ready to be written is one of the entity's workflow, from the state that
  -- the stored record has to the state that is written. The caller may take the action on the entity
  -- and a transition of this record; every field of the payload is open to the caller; what is
  -- validated is the stored data with the payload and the target state in it. The guard passes on the
  -- stored record, and the validator on the validated data.
  pub prepare-IsChecked :
      (call : Call) (db : Db) (p : Prepared)
      → prepare parse_uuid s io rc call db ≡ done p
      → IsChecked call db p
  unfolding prepare
  prepare-IsChecked call db p h =
      let (c, e, h1) = >>=-done (authorize parse_uuid s io rc call) _ h in
      let (l, f, h2) = >>=-done (load parse_uuid s io rc call db c) _ h1 in
      let x = load-done call db c l f in
      let (w, t, valid, merged, k) = choose-done call l p h2 in
      record {
        authorized =
            subst (λ (m : Loaded). IsAuthorized call m.caller) (sym k.loaded)
              (subst (IsAuthorized call) (sym x.same) (authorize-done call c e));
        permitted =
            subst (λ (m : Loaded). IsPermitted call db m.caller m) (sym k.loaded)
              (subst (λ (m : Caller). IsPermitted call db m l) (sym x.same) x);
        chosen = subst (λ (m : Loaded). Chosen call m p) (sym k.loaded) (w, t, valid, merged, k);
      }

  -- The data that a ready transition writes has the target state in the state field, the same state
  -- that goes into the status column, if no set field of the transition and no reference of the
  -- entity is called like the state field.
  pub prepare_state :
      (call : Call) (db : Db) (p : Prepared) (w : EntityWorkflow) (t : WorkflowTransition)
      → prepare parse_uuid s io rc call db ≡ done p
      → p.entity.workflow ≡ some w
      → find_transition p.entity call.action p.from_state ≡ some t
      → mem_text w.state_field (keys t.set_fields) ≡ false
      → any (is_reference_at parse_uuid w.state_field) p.entity.fields ≡ false
      → lookup w.state_field p.next_data ≡ some (str p.to_state)
  prepare_state call db p w t h hw ht free plain =
      let (v, u, valid, merged, c) = (prepare-IsChecked call db p h).chosen in
      let same_w : v ≡ w = cc (hw, c.workflow) in
      let same_t : u ≡ t = cc (ht, c.declared) in
      ap (λ (x : EntityWorkflow). lookup x.state_field p.next_data) (sym same_w)
      ∙ Computed-state parse_uuid s io rc p.entity v u p.existing p.actors p.next_data valid merged
          c.computed
          (cc (
            free,
            ap (λ (x : EntityWorkflow). x.state_field) same_w,
            ap (λ (x : WorkflowTransition). x.set_fields) same_t,
          ))
          (cc (
            plain,
            ap
                (λ (x : EntityWorkflow).
                  any (is_reference_at parse_uuid x.state_field) p.entity.fields)
                same_w,
          ))
      ∙ ap (λ x. some (str x)) (sym c.target)
