-- ===== src/Crud/Update/Merged.antt =====
-- What has been checked of an update's payload, and the data that comes of it.
use mathlib.Core.Path.{subst}
use metap.Prelude.{
  true, Option, none, some, List, [], ◌∷◌, String, ◌≡◌, refl, ap, ◌∙◌, ◌==◌, ◌||◌, eq_iff, lookup,
  keys, insert, insert_all, lookup-insert_self, mem_text, arith,
}
use metap.Prelude.Int.{ℤ}
use metap.Json.{Json, JsonObject}
use metap.Permission.Context.{RequestContext}
use metap.Permission.Snapshot.{assert_writable_fields}
use metap.Metadata.Entity.{EntityWorkflow, system_field_names}
use metap.Crud.Validation.{FieldErrors, add_error, validate_payload, accepted}
use metap.Crud.Validation.Accepts.{insert-ne-nil}
use metap.Crud.Enrich.{Service}
use metap.Crud.Fields.{reject_names, reject_system_fields, recompute_fields}
use metap.Crud.Transition.{validated}
use metap.Crud.Transition.Computed.{validated-done}
use metap.Crud.Store.{done, >>=-done, done-injective, permit_fields, parse_user_id}
use metap.Crud.Inversions.{permit_fields-done}
use metap.Crud.Update.{
  UpdateIo, UpdateCall, LoadedUpdate, PreparedUpdate, merge_update, no_errors, reset_state,
}

no_errors-done : (errs : FieldErrors) {u : Unit {0}} → no_errors errs ≡ done u → errs ≡ []
no_errors-done [] h = refl
no_errors-done (e ∷ errs) h = cc

reject_names-nil :
    (names : List String) (data_ : JsonObject) (errs : FieldErrors) (k : String)
    → reject_names names data_ errs ≡ []
    → (errs ≡ []) × (mem_text k names ≡ true → lookup k data_ ≡ none)
unfolding reject_names add_error
reject_names-nil [] data_ errs k h = (h, λ m. cc)
reject_names-nil (name ∷ names) data_ errs k h =
    let (here, later) = reject_names-nil names data_ _ k h in
    split (lookup name data_) refl here later
  where
    split :
        (o : Option Json)
        → lookup name data_ ≡ o
        → elim o [ none ↦ errs | some _ ↦ add_error name "system_field" errs ] ≡ []
        → (mem_text k names ≡ true → lookup k data_ ≡ none)
        → (errs ≡ []) × ((name == k || mem_text k names) ≡ true → lookup k data_ ≡ none)
    split none e here later = (here, λ m. ground (arith, eq_iff name k))
    split (some v) e here later = absurd (insert-ne-nil _ _ _ here)

pub reset_state_lem :
    (w : EntityWorkflow) (v : Json) (existing merged : JsonObject)
    → lookup w.state_field existing ≡ some v
    → lookup w.state_field (reset_state (some w) existing merged) ≡ some v
reset_state_lem w v existing merged h =
    ap
      (λ o.
        lookup w.state_field (elim o [ none ↦ merged | some x ↦ insert w.state_field x merged ]))
      h
    ∙ lookup-insert_self w.state_field v merged

module _ (parse_uuid : String → Option String) (s : Service) (rc : RequestContext)
    (number_text : ℤ → String) (json_text : Json → String) (io : UpdateIo) where
  -- What has been checked of the payload, and the data that comes of it.
  pub record IsMerged (call : UpdateCall) (l : LoadedUpdate) (p : PreparedUpdate) : Type 0 where
    pub loaded : p.loaded ≡ l
    pub no_system_field :
        (k : String)
        → mem_text k (system_field_names l.entity) ≡ true
        → lookup k call.payload ≡ none
    pub writable :
        (assert_writable_fields l.snapshot rc (keys call.payload) (some l.existing.fields)).allowed
        ≡ true
    pub valid : JsonObject
    pub validation :
        validate_payload parse_uuid l.entity (
          reset_state l.entity.workflow l.existing.fields
            (insert_all call.payload l.existing.fields))
        ≡ accepted valid
    pub computed : p.next_data ≡ recompute_fields number_text json_text l.entity.fields valid

  pub merge_update-done :
      (call : UpdateCall) (l : LoadedUpdate) (p : PreparedUpdate)
      → merge_update parse_uuid s rc number_text json_text io call l ≡ done p
      → IsMerged call l p
  unfolding merge_update reject_system_fields
  merge_update-done call l p h =
      let (_, ne, h1) = >>=-done (no_errors (reject_system_fields l.entity call.payload)) _ h in
      let (_, wr, h2) =
        >>=-done
          (permit_fields
            (assert_writable_fields l.snapshot rc (keys call.payload) (some l.existing.fields)))
          _ h1 in
      let (valid, va, h3) = >>=-done (validated (validate_payload parse_uuid l.entity _)) _ h2 in
      let (user, _, h4) = >>=-done (parse_user_id parse_uuid rc) _ h3 in
      subst (IsMerged call l) (done-injective h4) (record {
        loaded = refl;
        no_system_field = λ k.
            (reject_names-nil (system_field_names l.entity) call.payload [] k
              (no_errors-done _ ne)).1;
        writable =
            permit_fields-done
              (assert_writable_fields l.snapshot rc (keys call.payload) (some l.existing.fields))
              wr;
        valid = valid;
        validation = validated-done _ va;
        computed = refl;
      })
