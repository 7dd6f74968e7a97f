-- ===== src/Crud/References.antt =====
-- The reference guard of a delete: referencingFields and findReferencingRecords of
-- go/crud/helpers.go. A registry is the list of its entities.
pub mod Guard
use metap.Prelude.{
  ℕ, suc, zero, ◌-◌, Bool, true, false, not, Option, none, some, List, [], ◌∷◌, ◌++◌, String, ◌==◌,
  ◌&&◌, leb, length, any, keep, map, mem_text, text_lt, lookup, if◌then◌else◌,
}
use metap.Json.{Json, str}
use metap.Metadata.Entity.{EntityField, EntityDefinition, is_reference, field_has_real_column}
use metap.Crud.Store.{Row}

pub record ReferencingField : Type 0 where
  pub entity : String
  pub field : String
  pub table : String
  pub has_real_column : Bool

abbrev points_at : String → Option String → Bool
points_at target none = false
points_at target (some e) = e == target

unfoldable pub fields_pointing_at :
    String → EntityDefinition → List EntityField → List ReferencingField
unfolding field_has_real_column
fields_pointing_at target e [] = []
fields_pointing_at target e (f ∷ fs) =
    let rest = fields_pointing_at target e fs in
    if is_reference f.kind && points_at target f.ref_entity
    then record {
      entity = e.name;
      field = f.name;
      table = e.table_name;
      has_real_column = field_has_real_column f;
    }
      ∷ rest
    else rest

-- sort.Slice by name
unfoldable pub insert_by_name : EntityDefinition → List EntityDefinition → List EntityDefinition
insert_by_name e [] = e ∷ []
insert_by_name e (d ∷ ds) =
    let rest = insert_by_name e ds in if text_lt d.name e.name then d ∷ rest else e ∷ d ∷ ds

unfoldable pub sort_by_name : List EntityDefinition → List EntityDefinition
unfolding insert_by_name
sort_by_name [] = []
sort_by_name (e ∷ es) = insert_by_name e (sort_by_name es)

unfoldable pub fields_of_entities : String → List EntityDefinition → List ReferencingField
unfolding fields_pointing_at
fields_of_entities target [] = []
fields_of_entities target (e ∷ es) =
    fields_pointing_at target e e.fields ++ fields_of_entities target es

unfoldable pub referencing_fields : List EntityDefinition → String → List ReferencingField
unfolding fields_of_entities sort_by_name
referencing_fields registry target = fields_of_entities target (sort_by_name registry)

-- sort.Strings
unfoldable pub insert_text : String → List String → List String
insert_text s [] = s ∷ []
insert_text s (t ∷ ts) = let rest = insert_text s ts in if text_lt t s then t ∷ rest else s ∷ t ∷ ts

-- The distinct tables, in order.
unfoldable pub tables_of : List ReferencingField → List String
unfolding insert_text
tables_of [] = []
tables_of (f ∷ fs) =
    let rest = tables_of fs in if mem_text f.table rest then rest else insert_text f.table rest

pub record ReferencingHit : Type 0 where
  pub entity : String
  pub field : String
  pub id : String

abbrev pub max_referencing_hits : ℕ
max_referencing_hits = 50

-- `data ->> 'field'` where it can be an identifier.
abbrev text_of : Option Json → Option String
text_of (some (str s)) = some s
text_of _ = none

abbrev same_text : String → Option String → Bool
same_text id none = false
same_text id (some s) = s == id

-- LIMIT n
unfoldable pub take {ℓ} : {A : Type ℓ} → ℕ → List A → List A
take zero xs = []
take (suc n) [] = []
take (suc n) (x ∷ xs) = x ∷ take n xs

module _ (parse_uuid : String → Option String) (tenant id : String) where
  abbrev column_of : Option String → Option String
  column_of none = none
  column_of (some s) = parse_uuid s

  -- One clause of the query: the uuid column of the field, or its text.
  unfoldable pub refers : ReferencingField → Row → Bool
  refers f r =
      let text = text_of (lookup f.field r.fields) in
      if f.has_real_column then same_text id (column_of text) else same_text id text

  -- The WHERE clause for one table and the fields that live there.
  unfoldable pub is_blocking : String → List ReferencingField → Row → Bool
  unfolding refers
  is_blocking table group r =
      r.table == table
      && r.tenant_id == tenant
      && not r.deleted
      && not (r.id == id)
      && any (λ f. refers f r) group

  -- A hit is named after the first field of the table's group.
  abbrev pub hits_of : List ReferencingField → List Row → List ReferencingHit
  hits_of [] rows = []
  hits_of (f ∷ fs) rows = map (λ r. record { entity = f.entity; field = f.field; id = r.id }) rows

  abbrev pub group_of : String → List ReferencingField → List ReferencingField
  group_of table refs = keep (λ f. f.table == table) refs

  -- The rows that one table's query returns.
  abbrev pub blocking_rows : String → List ReferencingField → List Row → List Row
  blocking_rows table refs rows = keep (is_blocking table (group_of table refs)) rows

  -- The loop over the tables.
  unfoldable pub find_hits :
      List String → List ReferencingField → List Row → List ReferencingHit → List ReferencingHit
  unfolding take is_blocking
  find_hits [] refs rows hits = hits
  find_hits (table ∷ tables) refs rows hits =
      let found =
        hits_of (group_of table refs)
          (take (max_referencing_hits - length hits) (blocking_rows table refs rows)) in
      let rest = find_hits tables refs rows (hits ++ found) in
      if leb max_referencing_hits (length hits) then hits else rest

  unfoldable pub find_referencing_records : List ReferencingField → List Row → List ReferencingHit
  unfolding find_hits tables_of
  find_referencing_records refs rows = find_hits (tables_of refs) refs rows []
