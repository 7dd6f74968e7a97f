-- ===== src/Metadata/Entity.antt =====
-- go/metadata/entity.go. A flag that may be unset is an optional Boolean; a number bound is scaled as
-- a JSON number is.
use metap.Prelude.{
  ℕ, Bool, true, false, Option, none, some, List, [], ◌∷◌, String, ◌&&◌, ◌||◌, Assoc, if◌then◌else◌,
}
use metap.Prelude.Int.{ℤ}
use metap.Permission.Condition.{PolicyCondition, PolicyValue}

-- `other_kind` is any other text: the type of the source is a string.
pub data FieldKind : Type 0 where
  kind_id kind_string kind_number kind_boolean kind_date kind_datetime kind_money kind_enum :
      FieldKind
  kind_reference kind_json : FieldKind
  other_kind : String → FieldKind

pub data FieldStorage : Type 0 where
  storage_native storage_column : FieldStorage

pub data UniqueScope : Type 0 where
  scope_tenant scope_global : UniqueScope

unfoldable pub resolve_unique_scope : Option UniqueScope → UniqueScope
resolve_unique_scope none = scope_tenant
resolve_unique_scope (some s) = s

pub record ComputedSpec : Type 0 where
  pub expression : String
  pub depends_on : List String

pub record EntityField : Type 0 where
  pub name : String
  pub label : String
  pub kind : FieldKind
  pub required : Option Bool
  pub indexed : Option Bool
  pub unique : Option Bool
  pub unique_scope : Option UniqueScope
  pub enum_values : List String
  pub ref_entity : Option String
  pub ref_display_field : Option String
  pub searchable : Option Bool
  pub search_mode : Option String
  pub sortable : Option Bool
  pub storage : Option FieldStorage
  pub min_value : Option ℤ
  pub max_value : Option ℤ
  pub min_length : Option ℕ
  pub max_length : Option ℕ
  pub computed : Option ComputedSpec
  pub system : Option Bool

pub data FieldStorageTier : Type 0 where
  tier_jsonb tier_generated_column : FieldStorageTier

abbrev pub bool_val : Option Bool → Bool
bool_val none = false
bool_val (some b) = b

unfoldable pub resolve_field_storage_tier : EntityField → FieldStorageTier
resolve_field_storage_tier f = elim f.storage [
  | some storage_native ↦ tier_jsonb
  | some storage_column ↦ tier_generated_column
  | none ↦
      if bool_val f.indexed || bool_val f.sortable || bool_val f.unique || bool_val f.searchable
      then tier_generated_column
      else tier_jsonb
]

abbrev pub is_reference : FieldKind → Bool
is_reference kind_reference = true
is_reference _ = false

abbrev is_set {ℓ} : {A : Type ℓ} → Option A → Bool
is_set none = false
is_set (some _) = true

abbrev is_column : Option FieldStorage → Bool
is_column (some storage_column) = true
is_column _ = false

unfoldable pub field_has_real_column : EntityField → Bool
field_has_real_column f = (is_reference f.kind && is_set f.ref_entity) || is_column f.storage

unfoldable pub field_kind_sql_type : FieldKind → String
field_kind_sql_type kind_string = "text"
field_kind_sql_type kind_enum = "text"
field_kind_sql_type kind_number = "double precision"
field_kind_sql_type kind_money = "numeric(18,4)"
field_kind_sql_type kind_boolean = "boolean"
field_kind_sql_type kind_date = "date"
field_kind_sql_type kind_datetime = "timestamptz"
field_kind_sql_type kind_reference = "uuid"
field_kind_sql_type kind_id = "uuid"
field_kind_sql_type kind_json = "jsonb"
field_kind_sql_type (other_kind _) = "text"

-- The loop of SystemFieldNames over the fields.
unfoldable pub system_names : List EntityField → List String
system_names [] = []
system_names (f ∷ fs) =
    let rest = system_names fs in if bool_val f.system then f.name ∷ rest else rest

pub record WorkflowTransition : Type 0 where
  pub action : String
  pub source : String
  pub target : String
  pub label : String
  pub guard : Option PolicyCondition
  pub validator : Option PolicyCondition
  pub set_fields : Assoc PolicyValue
  pub guard_message : String
  pub validator_message : String

pub record EntityWorkflow : Type 0 where
  pub state_field : String
  pub initial_state : String
  pub terminal_states : List String
  pub transitions : List WorkflowTransition

pub record EntityUniqueConstraint : Type 0 where
  pub fields : List String
  pub scope : Option UniqueScope

pub record EntityAuditConfig : Type 0 where
  pub enabled : Bool
  pub redacted_fields : List String

pub record EntityListView : Type 0 where
  pub name : String
  pub label : String
  pub fields : List String
  pub filters : List String
  pub required_fields : List String
  pub default_sort : Option String
  pub max_limit : ℕ

pub record EntityDefinition : Type 0 where
  pub name : String
  pub label : String
  pub table_name : String
  pub fields : List EntityField
  pub list_views : List EntityListView
  pub workflow : Option EntityWorkflow
  pub unique_constraints : List EntityUniqueConstraint
  pub audit : Option EntityAuditConfig

unfoldable pub system_field_names : EntityDefinition → List String
unfolding system_names
system_field_names entity = system_names entity.fields
