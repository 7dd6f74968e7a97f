-- ===== src/Crud/Unique.antt =====
-- A statement that may violate a unique index: uniqueViolation of go/crud/helpers.go.
use Prim.Native.String.{◌++◌ as append}
use metap.Prelude.{
  Option, none, some, List, [], ◌∷◌, String, ◌==◌, insert, cut_prefix, split, if◌then◌else◌,
}
use metap.Metadata.Entity.{EntityDefinition, EntityUniqueConstraint}
use metap.Crud.Validation.{FieldErrors}
use metap.Crud.Store.{Response, done, failed, refuse_with, no_message, plain_message}

-- The UPDATE or INSERT runs, violates the unique index of this name (empty if the driver names
-- none), or fails otherwise.
pub data Statement : Type 0 where
  executed not_executed : Statement
  violated : String → Statement

abbrev joined : String → List String → String
joined sep [] = ""
joined sep (s ∷ []) = s
joined sep (s ∷ t ∷ ts) = append s (append sep (joined sep (t ∷ ts)))

-- "uniq_" + strings.ReplaceAll(name, ".", "_") + "_"
abbrev index_prefix : EntityDefinition → String
index_prefix entity = append "uniq_" (append (joined "_" (split b'.' entity.name)) "_")

abbrev each_field : String → List String → FieldErrors
each_field message [] = []
each_field message (f ∷ fs) = insert f (message ∷ []) (each_field message fs)

abbrev named_constraint :
    String → String → List EntityUniqueConstraint → Option EntityUniqueConstraint
named_constraint prefix name [] = none
named_constraint prefix name (c ∷ cs) =
    let rest = named_constraint prefix name cs in
    if append prefix (joined "_" c.fields) == name then some c else rest

abbrev unnamed_violation {ℓ} : {A : Type ℓ} → EntityDefinition → Response A
unnamed_violation entity = refuse_with 409 "unique_violation" (plain_message entity.name) []

unfoldable pub unique_violation {ℓ} : {A : Type ℓ} → EntityDefinition → String → Response A
unique_violation entity name =
    if name == ""
    then unnamed_violation entity
    else elim (named_constraint (index_prefix entity) name entity.unique_constraints) [
      | some c ↦
          refuse_with 409 "unique_violation" no_message
            (each_field "A record with this combination of values already exists." c.fields)
      | none ↦ elim (cut_prefix name (index_prefix entity)) [
        | some field ↦
            refuse_with 409 "unique_violation" no_message
              ((field, "A record with this value already exists." ∷ []) ∷ [])
        | none ↦ unnamed_violation entity
      ]
    ]

abbrev pub execute : EntityDefinition → Statement → Response (Unit {0})
execute entity executed = done tt
execute entity not_executed = failed
execute entity (violated name) = unique_violation entity name
