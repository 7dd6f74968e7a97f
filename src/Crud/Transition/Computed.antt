-- ===== src/Crud/Transition/Computed.antt =====
-- The steps from a transition that was found to the data that it writes.
use metap.Prelude.{
  true, insert_all, ℕ, false, Option, none, some, String, ◌≡◌, refl, sym, ap, ◌∙◌, lookup, insert,
  lookup-insert_self, Assoc, any, keys, mem_text,
}
use metap.Json.{str, JsonObject}
use metap.Permission.Context.{RequestContext}
use metap.Permission.Snapshot.{PermissionSnapshot, assert_writable_fields}
use metap.Metadata.Entity.{EntityDefinition, EntityWorkflow, WorkflowTransition}
use metap.Workflow.{
  WorkflowError, run_guard, run_validator, with_workflow_context, apply_set_fields,
}
use metap.Workflow.Laws.{apply_set_fields_other}
use metap.Crud.Validation.{validate_payload, Validated, accepted, refused}
use metap.Crud.Validation.Accepts.{validate_payload_other, is_reference_at}
use metap.Crud.Enrich.{Service}
use metap.Crud.Inversions.{permit_fields-done}
use metap.Crud.Store.{permit_fields, Row, done, >>=-done, done-injective}
use metap.Crud.Call.{Io}
use metap.Crud.Transition.{guarded, merge_payload, validated, next_data_of}

guarded-done :
    (status : ℕ) (code : String) (e : Option WorkflowError) {u : Unit {0}}
    → guarded status code e ≡ done u
    → e ≡ none
guarded-done status code none h = refl
guarded-done status code (some e) h = cc

pub validated-done : (v : Validated) {m : JsonObject} → validated v ≡ done m → v ≡ accepted m
validated-done (accepted m) h = cc
validated-done (refused errs) h = cc

-- The stored data with the fields of the payload in it, every one of which the caller may write.
abbrev pub Merges :
    PermissionSnapshot → RequestContext → JsonObject → Option JsonObject → JsonObject → Type 0
Merges snapshot rc existing none merged = merged ≡ existing
Merges snapshot rc existing (some p) merged =
    ((assert_writable_fields snapshot rc (keys p) (some existing)).allowed ≡ true)
    × (merged ≡ insert_all p existing)

merge_payload-done :
    (snapshot : PermissionSnapshot) (rc : RequestContext) (existing : JsonObject)
    (payload : Option JsonObject) (merged : JsonObject)
    → merge_payload snapshot rc existing payload ≡ done merged
    → Merges snapshot rc existing payload merged
merge_payload-done snapshot rc existing none merged h = sym (done-injective h)
merge_payload-done snapshot rc existing (some p) merged h =
    let (_, may, h1) =
      >>=-done (permit_fields (assert_writable_fields snapshot rc (keys p) (some existing))) _ h in
    (
      permit_fields-done (assert_writable_fields snapshot rc (keys p) (some existing)) may,
      sym (done-injective h1),
    )

module _ (parse_uuid : String → Option String) (s : Service) (io : Io) (rc : RequestContext) where
  -- The steps from a found transition to the data that is written.
  pub record Computed (entity : EntityDefinition) (w : EntityWorkflow) (t : WorkflowTransition)
      (existing : Row) (actors : Assoc String) (next valid merged : JsonObject) : Type 0 where
    pub guard : run_guard t (with_workflow_context existing.fields actors) rc ≡ none
    pub valid_payload :
        validate_payload parse_uuid entity (insert w.state_field (str t.target) merged)
        ≡ accepted valid
    pub validator : run_validator t (with_workflow_context valid actors) rc ≡ none
    pub set : next ≡ apply_set_fields t valid rc

  pub next_data_of-done :
      (entity : EntityDefinition) (snapshot : PermissionSnapshot) (w : EntityWorkflow)
      (t : WorkflowTransition) (existing : Row) (actors : Assoc String)
      (payload : Option JsonObject) (next : JsonObject)
      → next_data_of parse_uuid s io rc entity snapshot w t existing actors payload ≡ done next
      → (valid : JsonObject) × (merged : JsonObject) × Computed entity w t existing actors next
          valid merged
        × Merges snapshot rc existing.fields payload merged
  unfolding next_data_of
  next_data_of-done entity snapshot w t existing actors payload next h =
      let (_, g, h1) = >>=-done (guarded 422 "guard_failed" (run_guard t _ rc)) _ h in
      let (merged, mp, h2) = >>=-done (merge_payload snapshot rc existing.fields payload) _ h1 in
      let (valid, v, h3) =
        >>=-done (validated (validate_payload parse_uuid entity (insert w.state_field _ merged))) _
          h2 in
      let (_, r, h4) = >>=-done (guarded 422 "validator_failed" (run_validator t _ rc)) _ h3 in
      (
        valid,
        merged,
        record {
          guard = guarded-done _ _ _ g;
          valid_payload = validated-done _ v;
          validator = guarded-done _ _ _ r;
          set = sym (done-injective h4);
        },
        merge_payload-done snapshot rc existing.fields payload merged mp,
      )

  pub Computed-state :
      (entity : EntityDefinition) (w : EntityWorkflow) (t : WorkflowTransition) (existing : Row)
      (actors : Assoc String) (next valid merged : JsonObject)
      → Computed entity w t existing actors next valid merged
      → mem_text w.state_field (keys t.set_fields) ≡ false
      → any (is_reference_at parse_uuid w.state_field) entity.fields ≡ false
      → lookup w.state_field next ≡ some (str t.target)
  Computed-state entity w t existing actors next valid merged c h k =
      ap (lookup w.state_field) c.set
      ∙ apply_set_fields_other t valid rc w.state_field h
      ∙ validate_payload_other parse_uuid entity _ valid w.state_field c.valid_payload k
      ∙ lookup-insert_self w.state_field (str t.target) merged
