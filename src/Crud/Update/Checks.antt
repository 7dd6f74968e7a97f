-- ===== src/Crud/Update/Checks.antt =====
-- What has been checked when an update is ready to be written.
use mathlib.Core.Path.{subst}
use metap.Prelude.{
  true, false, Option, some, [], ◌∷◌, String, ◌≡◌, refl, sym, ap, ◌∙◌, lookup, insert_all, any,
}
use metap.Prelude.Int.{ℤ}
use metap.Json.{Json, JsonObject}
use metap.Permission.Context.{RequestContext, update, PermissionDecision}
use metap.Permission.Service
use metap.Permission.Service.{scoped_tenant, check_action, load_permission_snapshot}
use metap.Permission.Snapshot.{can_perform_record_condition}
use metap.Metadata.Entity.{EntityWorkflow}
use metap.Crud.Validation.Accepts.{validate_payload_other, is_reference_at}
use metap.Crud.Enrich.{Service, enrich_record_for_actions}
use metap.Crud.Fields.{recompute_fields_other, is_computed_at}
use metap.Crud.Store.{
  Db, done, >>=-done, fetch_existing, done-injective, or_refuse-done, check, begin, or_refuse,
  of_service, permit,
}
use metap.Crud.Call.{Caller}
use metap.Crud.Inversions.{permit-done, of_service-done}
use metap.Crud.Update.Merged.{IsMerged, merge_update-done, reset_state_lem}
use metap.Crud.Update.{
  UpdateIo, UpdateCall, LoadedUpdate, PreparedUpdate, authorize_update, load_update, prepare_update,
  reset_state,
}

module _ (parse_uuid : String → Option String) (s : Service) (rc : RequestContext)
    (number_text : ℤ → String) (json_text : Json → String) (io : UpdateIo) where
  -- The entity is there, and the caller may update it.
  pub record MayUpdate (call : UpdateCall) (c : Caller) : Type 0 where
    pub entity : s.find_entity call.entity_name ≡ some c.entity
    pub decision : PermissionDecision
    pub decided : check_action parse_uuid s.policies rc c.entity.name update ≡ Service.ok decision
    pub allowed : decision.allowed ≡ true

  authorize_update-done :
      (call : UpdateCall) (c : Caller)
      → authorize_update parse_uuid s rc number_text json_text io call ≡ done c
      → MayUpdate call c
  unfolding authorize_update
  authorize_update-done call c h =
      let (tenant, _, h1) = >>=-done (of_service (scoped_tenant parse_uuid rc)) _ h in
      let (_, _, h2) = >>=-done (check io.registry_loads) _ h1 in
      let (entity, e, h3) =
        >>=-done (or_refuse 404 "entity_not_found" (s.find_entity call.entity_name)) _ h2 in
      let (d, f, h4) =
        >>=-done (of_service (check_action parse_uuid s.policies rc entity.name update)) _ h3 in
      let (_, a, h5) = >>=-done (permit d) _ h4 in
      subst (MayUpdate call) (done-injective h5) (record {
        entity = or_refuse-done _ _ _ e;
        decision = d;
        decided = of_service-done _ f;
        allowed = permit-done d a;
      })

  -- The stored record, the policies, and the permission for the record.
  pub record IsLoaded (call : UpdateCall) (db : Db) (c : Caller) (l : LoadedUpdate) : Type 0 where
    pub same : l.caller ≡ c
    pub existing : fetch_existing db l.entity call.id l.tenant ≡ some l.existing
    pub snapshot :
        load_permission_snapshot s.policies l.tenant l.entity.name ≡ Service.ok l.snapshot
    pub enriched : JsonObject
    pub enrichment :
        enrich_record_for_actions parse_uuid s db l.tenant l.entity l.snapshot
          (update ∷ [])
          l.existing.fields
          io.enrich_reads
        ≡ done enriched
    pub allowed : (can_perform_record_condition l.snapshot rc enriched update).allowed ≡ true

  load_update-done :
      (call : UpdateCall) (db : Db) (c : Caller) (l : LoadedUpdate)
      → load_update parse_uuid s rc number_text json_text io call db c ≡ done l
      → IsLoaded call db c l
  unfolding load_update
  load_update-done call db c l h =
      let (_, _, h1) = >>=-done (begin io.precheck_begin) _ h in
      let (_, _, h2) = >>=-done (check io.fetches) _ h1 in
      let (existing, x, h3) =
        >>=-done (or_refuse 404 "record_not_found" (fetch_existing db c.entity call.id c.tenant)) _
          h2 in
      let (_, _, h4) = >>=-done (check io.precheck_commits) _ h3 in
      let (snapshot, sn, h5) =
        >>=-done (of_service (load_permission_snapshot s.policies c.tenant c.entity.name)) _ h4 in
      let (enriched, en, h6) =
        >>=-done
          (enrich_record_for_actions parse_uuid s db c.tenant c.entity snapshot (update ∷ [])
            existing.fields io.enrich_reads)
          _ h5 in
      let (_, rd, h7) =
        >>=-done (permit (can_perform_record_condition snapshot rc enriched update)) _ h6 in
      subst (IsLoaded call db c) (done-injective h7) (record {
        same = refl;
        existing = or_refuse-done _ _ _ x;
        snapshot = of_service-done _ sn;
        enriched = enriched;
        enrichment = en;
        allowed = permit-done (can_perform_record_condition snapshot rc enriched update) rd;
      })

  -- What the precheck of an update has found.
  pub record IsCheckedUpdate (call : UpdateCall) (db : Db) (p : PreparedUpdate) : Type 0 where
    pub authorized : MayUpdate call p.caller
    pub loaded : IsLoaded call db p.caller p.loaded
    pub merged : IsMerged parse_uuid s rc number_text json_text io call p.loaded p

  -- An update that is ready to be written is one of a live record that the caller is permitted to
  -- update, for the entity and for the record; its payload has no system field and no field that is
  -- closed to the caller, and the merged data has been validated, the state field as it was.
  pub prepare_update-IsCheckedUpdate :
      (call : UpdateCall) (db : Db) (p : PreparedUpdate)
      → prepare_update parse_uuid s rc number_text json_text io call db ≡ done p
      → IsCheckedUpdate call db p
  unfolding prepare_update
  prepare_update-IsCheckedUpdate call db p h =
      let (c, e, h1) =
        >>=-done (authorize_update parse_uuid s rc number_text json_text io call) _ h in
      let (l, f, h2) =
        >>=-done (load_update parse_uuid s rc number_text json_text io call db c) _ h1 in
      let x = load_update-done call db c l f in
      let m = merge_update-done parse_uuid s rc number_text json_text io call l p h2 in
      record {
        authorized =
            subst (λ (k : LoadedUpdate). MayUpdate call k.caller) (sym m.loaded)
              (subst (MayUpdate call) (sym x.same) (authorize_update-done call c e));
        loaded =
            subst (λ (k : LoadedUpdate). IsLoaded call db k.caller k) (sym m.loaded)
              (subst (λ (k : Caller). IsLoaded call db k l) (sym x.same) x);
        merged =
            subst (λ (k : LoadedUpdate). IsMerged parse_uuid s rc number_text json_text io call k p)
              (sym m.loaded) m;
      }

  -- An update never moves a stored workflow state: if the stored record has the state field, the data
  -- that is written has the same value there, if no reference and no computed field is called like it.
  pub prepare_update_state :
      (call : UpdateCall) (db : Db) (p : PreparedUpdate) (w : EntityWorkflow) (v : Json)
      → prepare_update parse_uuid s rc number_text json_text io call db ≡ done p
      → p.entity.workflow ≡ some w
      → lookup w.state_field p.existing.fields ≡ some v
      → any (is_reference_at parse_uuid w.state_field) p.entity.fields ≡ false
      → any (is_computed_at number_text json_text w.state_field) p.entity.fields ≡ false
      → lookup w.state_field p.next_data ≡ some v
  prepare_update_state call db p w v h hw hv plain stored =
      let c = (prepare_update-IsCheckedUpdate call db p h).merged in
      ap (lookup w.state_field) c.computed
      ∙ recompute_fields_other number_text json_text p.entity.fields c.valid w.state_field stored
      ∙ validate_payload_other parse_uuid p.entity _ c.valid w.state_field c.validation plain
      ∙ ap
          (λ o.
            lookup w.state_field
              (reset_state o p.existing.fields (insert_all call.payload p.existing.fields)))
          hw
      ∙ reset_state_lem w v p.existing.fields _ hv
