-- ===== src/Crud/SystemFields.antt =====
-- SetSystemFields of go/crud/system_fields.go: the one writer of system fields. Its errors are
-- `failed`; the loop over the keys of a map may stop at any of them.
pub mod Laws
use metap.Prelude.{
  Bool, true, false, not, Option, none, some, List, [], ◌∷◌, String, ◌&&◌, all, keep, keys,
  mem_text, insert_all, length, eqb, if◌then◌else◌,
}
use metap.Json.{JsonObject}
use metap.Metadata.Entity.{EntityField, EntityDefinition, system_field_names}
use metap.Crud.Validation.{validate_payload, Validated, accepted, refused}
use metap.Crud.Enrich.{Service}
use metap.Crud.Store
use metap.Crud.Store.{Db, Row, Response, done, failed, ◌>>=◌, ◌>>◌, check, is_live, update_rows}

-- How the calls of the router and of the driver end; every error of Begin is returned as it is.
pub record SystemIo : Type 0 where
  pub registry_loads : Bool
  pub begins : Bool
  pub executes : Bool
  pub commits : Bool

abbrev or_fail {ℓ} : {A : Type ℓ} → Option A → Response A
or_fail none = failed
or_fail (some a) = done a

abbrev pub valid_or_fail : Validated → Response JsonObject
valid_or_fail (accepted m) = done m
valid_or_fail (refused errs) = failed

-- The fields of the entity that the call names.
abbrev pub declared_fields : JsonObject → List EntityField → List EntityField
declared_fields fields fs = keep (λ f. mem_text f.name (keys fields)) fs

-- data || patch
abbrev pub patched : JsonObject → Row → Row
patched patch r = record r { fields = insert_all patch r.fields }

module _ (parse_uuid : String → Option String) (s : Service) (io : SystemIo) where
  -- The entity, and the values that its system fields take.
  unfoldable pub prepare_system : String → JsonObject → Response (EntityDefinition × JsonObject)
  prepare_system entity_name fields = do
    check io.registry_loads
    entity ← or_fail (s.find_entity entity_name)
    check (all (λ k. mem_text k (system_field_names entity)) (keys fields))
    patch ← valid_or_fail (
        validate_payload parse_uuid
          (record entity { fields = declared_fields fields entity.fields }) fields)
    done (entity, patch)

  -- The tables, and whether exactly one row was affected.
  unfoldable pub set_system_fields :
      String → String → String → JsonObject → Db → Response (Db × Bool)
  unfolding prepare_system
  set_system_fields tenant entity_name id fields db = do
    (entity, patch) ← prepare_system entity_name fields
    check io.begins
    check io.executes
    check io.commits
    let hit = is_live entity.table_name id tenant
    done (
      record db { rows = update_rows hit (patched patch) db.rows },
      eqb (length (keep hit db.rows)) 1,
    )
