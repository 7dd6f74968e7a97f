-- ===== src/Tests/Systems.antt =====
-- The theorem of a write of system fields at one order that has such a field.
use metap.Prelude.{true, some, [], ◌∷◌, ◌≡◌, refl, lookup, insert, insert_all}
use metap.Json.{str, JsonObject}
use metap.Metadata.Entity.{EntityDefinition, kind_string, system_field_names}
use metap.Crud.Store.{Row, Db, done, update_rows}
use metap.Crud.Enrich.{Service}
use metap.Crud.Validation.{validate_payload}
use metap.Crud.SystemFields.{SystemIo, set_system_fields, patched}
use metap.Crud.SystemFields.Laws.{OnlySystem, set_system_fields-done}
use metap.Tests.Data.{parse_any, service, tables, orders, field, draft}

abbrev tracked : EntityDefinition
tracked = record orders {
  fields =
      record (field "last_seen" kind_string (some true) []) { system = some true }
      ∷ field "note" kind_string (some true) []
      ∷ [];
}

abbrev tracking : Service
tracking = record service { find_entity = λ _. some tracked }

abbrev smooth_system : SystemIo
smooth_system = record { registry_loads = true; begins = true; executes = true; commits = true }

abbrev seen : JsonObject
seen = ("last_seen", str "today") ∷ []

abbrev seen_tables : Db
seen_tables = record tables { rows = patched seen draft ∷ [] }

set_seen :
    set_system_fields parse_any tracking smooth_system "t1" "orders" "r1" seen tables
    ≡ done (seen_tables, true)
unfolding set_system_fields system_field_names validate_payload lookup insert insert_all update_rows
set_seen = refl

set_system_fields-done_example :
    (entity : EntityDefinition) × (g : Row → Row) × OnlySystem parse_any tracking smooth_system "t1"
      "orders" "r1" tables seen_tables entity g
set_system_fields-done_example =
    set_system_fields-done parse_any tracking smooth_system "t1" "orders" "r1" seen tables
      seen_tables true set_seen
