-- ===== src/Crud/SystemFields/Laws.antt =====
-- What a write of system fields changes.
use mathlib.Core.Path.{subst}
use metap.Prelude.{
  Bool, true, false, Option, none, some, List, [], ◌∷◌, String, ◌≡◌, refl, sym, ap, ◌∙◌, all, any,
  keys, mem_text, insert_all, insert, lookup, lookup-insert, eq_iff, arith,
}
use metap.Json.{JsonObject}
use metap.Metadata.Entity.{EntityField, EntityDefinition, system_field_names}
use metap.Crud.Validation.{validate_payload, Validated, accepted, refused}
use metap.Crud.Validation.Accepts.{validate_payload_other, is_reference_at}
use metap.Crud.Enrich.{Service}
use metap.Crud.Store.{Db, Row, done, refused, >>=-done, done-injective, check, is_live, update_rows}
use metap.Crud.SystemFields.{
  SystemIo, or_fail, valid_or_fail, declared_fields, patched, prepare_system, set_system_fields,
}

lookup-insert_all_other :
    (k : String) (n m : JsonObject) → lookup k n ≡ none → lookup k (insert_all n m) ≡ lookup k m
unfolding lookup insert_all
lookup-insert_all_other k [] m h = refl
lookup-insert_all_other k (e ∷ n) m h =
    lookup-insert_all_other k n (insert e.0 e.1 m) (ground arith)
    ∙ ground (arith, lookup-insert e.0 k e.1 m)

not_a_key :
    (k : String) (names : List String) (m : JsonObject)
    → all (λ j. mem_text j names) (keys m) ≡ true
    → mem_text k names ≡ false
    → (lookup k m ≡ none) × (mem_text k (keys m) ≡ false)
unfolding lookup
not_a_key k names [] h n = (refl, refl)
not_a_key k names (e ∷ m) h n =
    let rest = not_a_key k names m (ground arith) n in ground (arith, eq_iff e.0 k, rest)

not_declared :
    (parse_uuid : String → Option String) (k : String) (fields : JsonObject) (fs : List EntityField)
    → mem_text k (keys fields) ≡ false
    → any (is_reference_at parse_uuid k) (declared_fields fields fs) ≡ false
not_declared parse_uuid k fields [] h = refl
not_declared parse_uuid k fields (f ∷ fs) h =
    ground (arith, not_declared parse_uuid k fields fs h, eq_iff f.name k)

valid_or_fail-done : (v : Validated) {m : JsonObject} → valid_or_fail v ≡ done m → v ≡ accepted m
valid_or_fail-done (accepted m) h = cc
valid_or_fail-done (refused errs) h = cc

or_fail-done {ℓ} : {A : Type ℓ} (o : Option A) {a : A} → or_fail o ≡ done a → o ≡ some a
or_fail-done none h = cc
or_fail-done (some a) h = cc

check-done : (b : Bool) {u : Unit {0}} → check b ≡ done u → b ≡ true
check-done true h = refl
check-done false h = cc

module _ (parse_uuid : String → Option String) (s : Service) (io : SystemIo) where
  -- No key of the patch but system fields.
  record IsPatch (entity_name : String) (e : EntityDefinition) (patch : JsonObject) : Type 0 where
    entity : s.find_entity entity_name ≡ some e
    system : (k : String) → mem_text k (system_field_names e) ≡ false → lookup k patch ≡ none

  prepare_system-done :
      (entity_name : String) (fields : JsonObject) (e : EntityDefinition) (patch : JsonObject)
      → prepare_system parse_uuid s io entity_name fields ≡ done (e, patch)
      → IsPatch entity_name e patch
  unfolding prepare_system
  prepare_system-done entity_name fields e patch h =
      let (_, _, h1) = >>=-done (check io.registry_loads) _ h in
      let (entity, f, h2) = >>=-done (or_fail (s.find_entity entity_name)) _ h1 in
      let (_, a, h3) =
        >>=-done (check (all (λ k. mem_text k (system_field_names entity)) (keys fields))) _ h2 in
      let (valid, v, h4) = >>=-done (valid_or_fail (validate_payload parse_uuid _ fields)) _ h3 in
      subst (λ (x : EntityDefinition × JsonObject). IsPatch entity_name x.0 x.1) (done-injective h4)
        (record {
          entity = or_fail-done _ f;
          system = λ k n.
              let (missing, no_key) =
                not_a_key k (system_field_names entity) fields (check-done _ a) n in
              validate_payload_other parse_uuid _ fields valid k (valid_or_fail-done _ v)
                (not_declared parse_uuid k fields entity.fields no_key)
              ∙ missing;
        })

  -- What a write of system fields has done to the tables.
  pub record OnlySystem (tenant entity_name id : String) (db after : Db) (entity : EntityDefinition)
      (g : Row → Row) : Type 0 where
    pub registered : s.find_entity entity_name ≡ some entity
    pub rows : after.rows ≡ update_rows (is_live entity.table_name id tenant) g db.rows
    pub other_fields :
        (r : Row) (k : String)
        → mem_text k (system_field_names entity) ≡ false
        → lookup k (g r).fields ≡ lookup k r.fields
    pub version : (r : Row) → (g r).version ≡ r.version
    pub status : (r : Row) → (g r).status ≡ r.status
    pub updated_by : (r : Row) → (g r).updated_by ≡ r.updated_by
    pub outbox : after.outbox ≡ db.outbox
    pub audits : after.audits ≡ db.audits

  -- A write of system fields that returns changes the live rows of its address at most in their
  -- system fields: every other field, the version, the status and the last writer stay, and neither
  -- an outbox event nor an audit entry is written.
  pub set_system_fields-done :
      (tenant entity_name id : String) (fields : JsonObject) (db after : Db) (found : Bool)
      → set_system_fields parse_uuid s io tenant entity_name id fields db ≡ done (after, found)
      → (entity : EntityDefinition) × (g : Row → Row) × OnlySystem tenant entity_name id db after
          entity g
  unfolding set_system_fields
  set_system_fields-done tenant entity_name id fields db after found h =
      let (ep, p, h1) = >>=-done (prepare_system parse_uuid s io entity_name fields) _ h in
      let (_, _, h2) = >>=-done (check io.begins) _ h1 in
      let (_, _, h3) = >>=-done (check io.executes) _ h2 in
      let (_, _, h4) = >>=-done (check io.commits) _ h3 in
      let same = done-injective h4 in
      let checked = prepare_system-done entity_name fields ep.0 ep.1 p in
      (
        ep.0,
        patched ep.1,
        record {
          registered = checked.entity;
          rows = sym (ap (λ x. x.0.rows) same);
          other_fields = λ r k n. lookup-insert_all_other k ep.1 r.fields (checked.system k n);
          version = λ r. refl;
          status = λ r. refl;
          updated_by = λ r. refl;
          outbox = sym (ap (λ x. x.0.outbox) same);
          audits = sym (ap (λ x. x.0.audits) same);
        },
      )
