-- ===== src/Crud/Create/State.antt =====
-- The state of a new record: its status column and the state field of its data.
use mathlib.Core.Path.{subst}
use metap.Prelude.{
  Option, none, some, String, ◌≡◌, refl, sym, ap, ◌∙◌, ◌⊎◌, inl, inr, lookup, keys,
  lookup-insert_self, arith,
}
use metap.Prelude.Int.{ℤ}
use metap.Json.{Json, str, JsonObject, as_string}
use metap.Permission.Context.{RequestContext, create}
use metap.Permission.Snapshot.{assert_writable_fields}
use metap.Crud.Validation.{validate_payload}
use metap.Permission.Service.{check_action, scoped_tenant, load_permission_snapshot}
use metap.Metadata.Entity.{EntityDefinition, EntityWorkflow}
use metap.Workflow.{get_initial_status}
use metap.Crud.Enrich.{Service}
use metap.Crud.Fields.{recompute_fields, reject_system_fields}
use metap.Crud.Store.{
  done, >>=-done, done-injective, check, of_service, or_refuse, permit, permit_fields,
  parse_user_id,
}
use metap.Crud.Transition.{validated}
use metap.Crud.Update.{no_errors}
use metap.Crud.Create.{CreateIo, CreateCall, PreparedCreate, with_state, complete, prepare_create}

-- A stored state that is no text leaves the initial state; without one the initial state is stored.
state_agrees :
    (w : EntityWorkflow) (d : JsonObject) (entity : EntityDefinition)
    → entity.workflow ≡ some w
    → (status : String) × (raw : Json) × (get_initial_status entity d ≡ some status)
      × (lookup w.state_field (with_state entity.workflow (get_initial_status entity d) d)
          ≡ some raw)
      × ((as_string raw ≡ some status) ⊎ ((as_string raw ≡ none) × (status ≡ w.initial_state)))
unfolding get_initial_status
state_agrees w d entity h = by_state (lookup w.state_field d) refl
  where
    by_text :
        (raw : Json) (t : Option String)
        → lookup w.state_field d ≡ some raw
        → as_string raw ≡ t
        → (status : String) × (raw' : Json) × (get_initial_status entity d ≡ some status)
          × (lookup w.state_field (with_state entity.workflow (get_initial_status entity d) d)
              ≡ some raw')
          × ((as_string raw' ≡ some status)
              ⊎ ((as_string raw' ≡ none) × (status ≡ w.initial_state)))
    by_text raw (some text) e k = (text, raw, ground arith, ground arith, inl k)
    by_text raw none e k = (w.initial_state, raw, ground arith, ground arith, inr (k, refl))

    by_state :
        (found : Option Json)
        → lookup w.state_field d ≡ found
        → (status : String) × (raw : Json) × (get_initial_status entity d ≡ some status)
          × (lookup w.state_field (with_state entity.workflow (get_initial_status entity d) d)
              ≡ some raw)
          × ((as_string raw ≡ some status) ⊎ ((as_string raw ≡ none) × (status ≡ w.initial_state)))
    by_state none e = (
      w.initial_state,
      str w.initial_state,
      ground arith,
      ground (arith, lookup-insert_self w.state_field (str w.initial_state) d),
      inl refl,
    )
    by_state (some raw) e = by_text raw (as_string raw) e refl

module _ (parse_uuid : String → Option String) (s : Service) (rc : RequestContext)
    (number_text : ℤ → String) (json_text : Json → String) (io : CreateIo) where
  abbrev Completes : PreparedCreate → Type 0
  Completes p =
      (valid : JsonObject) × (complete parse_uuid s rc number_text json_text io p.caller p.snapshot
          valid p.user_id
        ≡ p)

  -- A prepared record is the completion of a payload that has been validated.
  prepare_create-done :
      (call : CreateCall) (p : PreparedCreate)
      → prepare_create parse_uuid s rc number_text json_text io call ≡ done p
      → Completes p
  unfolding prepare_create complete
  prepare_create-done call p h =
      let (tenant, _, h1) = >>=-done (of_service (scoped_tenant parse_uuid rc)) _ h in
      let (_, _, h2) = >>=-done (check io.registry_loads) _ h1 in
      let (entity, _, h3) =
        >>=-done (or_refuse 404 "entity_not_found" (s.find_entity call.entity_name)) _ h2 in
      let (d, _, h4) =
        >>=-done (of_service (check_action parse_uuid s.policies rc entity.name create)) _ h3 in
      let (_, _, h5) = >>=-done (permit d) _ h4 in
      let (snapshot, _, h6) =
        >>=-done (of_service (load_permission_snapshot s.policies tenant entity.name)) _ h5 in
      let (_, _, h7) =
        >>=-done (permit_fields (assert_writable_fields snapshot rc (keys call.payload) none)) _
          h6 in
      let (_, _, h8) = >>=-done (no_errors (reject_system_fields entity call.payload)) _ h7 in
      let (valid, _, h9) =
        >>=-done (validated (validate_payload parse_uuid entity call.payload)) _ h8 in
      let (user, _, h10) = >>=-done (parse_user_id parse_uuid rc) _ h9 in
      subst Completes (done-injective h10) (valid, refl)

  -- The status column of a new record and the state field of its data say the same: for an entity
  -- with a workflow a prepared record has a status, and its data has a state; its text is the status,
  -- or it has no text, and the status is the initial state.
  pub prepare_create_state :
      (call : CreateCall) (p : PreparedCreate) (w : EntityWorkflow)
      → prepare_create parse_uuid s rc number_text json_text io call ≡ done p
      → p.entity.workflow ≡ some w
      → (status : String) × (raw : Json) × (p.status ≡ some status)
        × (lookup w.state_field p.next_data ≡ some raw)
        × ((as_string raw ≡ some status) ⊎ ((as_string raw ≡ none) × (status ≡ w.initial_state)))
  unfolding complete
  prepare_create_state call p w h hw =
      let (valid, same) = prepare_create-done call p h in
      let d = recompute_fields number_text json_text p.entity.fields valid in
      let (status, raw, a, b, c) = state_agrees w d p.entity hw in
      (
        status,
        raw,
        ap (λ (q : PreparedCreate). q.status) (sym same) ∙ a,
        ap (λ (q : PreparedCreate). lookup w.state_field q.next_data) (sym same) ∙ b,
        c,
      )
