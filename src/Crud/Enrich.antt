-- ===== src/Crud/Enrich.antt =====
-- go/crud/crud_service.go: the service's parts, the enrichment of a record by the records that its
-- relation fields point at, and the write of an audit entry.
use metap.Prelude.{
  Bool, Option, none, some, List, [], ◌∷◌, ◌++◌, String, ◌==◌, ◌&&◌, lookup, insert, mem_text,
  if◌then◌else◌,
}
use metap.Json.{JsonObject, object, as_string}
use metap.Permission.Context.{EntityAction}
use metap.Permission.Snapshot.{PermissionSnapshot, snapshot_relation_fields}
use metap.Metadata.Entity.{EntityField, EntityDefinition, is_reference}
use metap.Control.PolicyStore.{PolicyDb}
use metap.Audit.{Entry, redact_diff_fields}
use metap.Crud.Store.{Db, Row, Response, done, failed, find_row, is_live}

-- The registry of the call, the policies of the tenant, whether an audit store is configured, and
-- the entity whose updates invalidate the cache of context attributes, if one is.
pub record Service : Type 0 where
  pub find_entity : String → Option EntityDefinition
  pub policies : PolicyDb
  pub has_audit_store : Bool
  pub context_entity : Option String

unfoldable pub add_new : List String → List String → List String
add_new [] seen = seen
add_new (f ∷ fs) seen = add_new fs (if mem_text f seen then seen else seen ++ f ∷ [])

unfoldable pub relation_fields : PermissionSnapshot → List EntityAction → List String → List String
unfolding add_new
relation_fields snapshot [] seen = seen
relation_fields snapshot (a ∷ as_) seen =
    relation_fields snapshot as_ (add_new (snapshot_relation_fields snapshot a) seen)

unfoldable pub find_field : List EntityField → String → Option EntityField
find_field [] name = none
find_field (f ∷ fs) name = let rest = find_field fs name in if f.name == name then some f else rest

abbrev fields_of : Option Row → Option JsonObject
fields_of none = none
fields_of (some r) = some r.fields

module _ (parse_uuid : String → Option String) (s : Service) (db : Db) (tenant : String) where
  -- fetchRelatedData
  unfoldable pub fetch_related : EntityDefinition → String → Option JsonObject
  fetch_related entity id = fields_of (find_row (is_live entity.table_name id tenant) db.rows)

  -- The data that a relation field points at; each `none` is a `continue`.
  unfoldable pub related_data : EntityDefinition → JsonObject → String → Option JsonObject
  unfolding find_field fetch_related
  related_data entity r name = elim (find_field entity.fields name) [
    | none ↦ none
    | some f ↦ elim f.ref_entity [
      | none ↦ none
      | some target ↦
          if is_reference f.kind
          then elim (lookup name r) [
            | none ↦ none
            | some raw ↦ elim (as_string raw) [
              | none ↦ none
              | some text ↦ elim (parse_uuid text) [
                | none ↦ none
                | some id ↦ elim (s.find_entity target) [
                  | none ↦ none
                  | some definition ↦ fetch_related definition id
                ]
              ]
            ]
          ]
          else none
    ]
  ]

  abbrev put_related : String → Option JsonObject → JsonObject → JsonObject
  put_related name none enriched = enriched
  put_related name (some m) enriched = insert name (object m) enriched

  unfoldable pub enrich_fields :
      EntityDefinition → JsonObject → List String → JsonObject → JsonObject
  unfolding related_data
  enrich_fields entity r [] enriched = enriched
  enrich_fields entity r (name ∷ names) enriched =
      enrich_fields entity r names (put_related name (related_data entity r name) enriched)

  abbrev enrich_or_same : EntityDefinition → JsonObject → List String → Bool → Response JsonObject
  enrich_or_same entity r [] reads = done r
  enrich_or_same entity r (name ∷ names) reads =
      if reads then done (enrich_fields entity r (name ∷ names) r) else failed

  -- `reads` says whether its transaction and its queries succeed.
  unfoldable pub enrich_record_for_actions :
      EntityDefinition
      → PermissionSnapshot
      → List EntityAction
      → JsonObject
      → Bool
      → Response JsonObject
  unfolding relation_fields enrich_fields
  enrich_record_for_actions entity snapshot actions r reads =
      enrich_or_same entity r (relation_fields snapshot actions []) reads

-- recordAudit: after the write has been committed; a store that fails changes nothing else.
unfoldable pub record_audit : Service → EntityDefinition → Entry → Bool → Db → Db
record_audit s entity entry stores db = elim entity.audit [
  | none ↦ db
  | some c ↦
      if s.has_audit_store && c.enabled && stores
      then record db {
        audits =
            db.audits
            ++ record entry { diff = redact_diff_fields entry.diff c.redacted_fields } ∷ [];
      }
      else db
]
