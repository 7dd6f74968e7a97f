-- ===== src/Permission/Resolve.antt =====
-- go/permission/resolve.go
use metap.Prelude.{
  Bool, Option, none, some, List, [], ◌∷◌, ◌++◌, String, lookup, split, cut, cut_prefix, has_prefix,
  mem_text, if◌then◌else◌,
}
use metap.Json.{Json, null, JsonObject, as_object}
use metap.Permission.Context.{RequestContext, to_value}
use metap.Permission.Condition.{
  PolicyValue, literal, from_context, PolicyCondition, attribute, all_of, any_of, Conditions, nil,
  cons, PolicyRow,
}

abbrev or_null : Option Json → Json
or_null none = null
or_null (some v) = v

-- The result of decoding into a map whose error is ignored.
abbrev or_empty : Option JsonObject → JsonObject
or_empty none = []
or_empty (some m) = m

unfoldable pub resolve_value : PolicyValue → RequestContext → Json
resolve_value (from_context key) ctx = or_null (lookup key (or_empty (as_object (to_value ctx))))
resolve_value (literal v) ctx = or_null v

abbrev pub context_attribute_prefix : String
context_attribute_prefix = "$ctx."

abbrev pub workflow_attribute_prefix : String
workflow_attribute_prefix = "$workflow."

unfoldable pub walk_path : Json → List String → Json
walk_path current [] = current
walk_path current (segment ∷ rest) = elim (as_object current) [
  | none ↦ null
  | some m ↦ elim (lookup segment m) [ none ↦ null | some next ↦ walk_path next rest ]
]

unfoldable pub resolve_attribute_path : Json → String → Json
unfolding walk_path
resolve_attribute_path subject path = walk_path subject (split b'.' path)

unfoldable pub resolve_attribute : Json → String → RequestContext → Json
resolve_attribute subject path ctx = elim (cut_prefix path context_attribute_prefix) [
  | none ↦ resolve_attribute_path subject path
  | some rest ↦ resolve_attribute_path (to_value ctx) rest
]

unfoldable pub is_context_attribute : String → Bool
is_context_attribute path = has_prefix path context_attribute_prefix

unfoldable pub relation_field_of : String → Option String
relation_field_of path =
    if has_prefix path "$"
    then none
    else elim (cut b'.' path) [ none ↦ none | some (head, _) ↦ some head ]

abbrev add_once : String → List String → List String
add_once f out = if mem_text f out then out else out ++ f ∷ []

unfoldable mutual
  pub collect_relation_fields : PolicyCondition → List String → List String
  collect_relation_fields (attribute path _ _) out = elim (relation_field_of path) [
    | none ↦ out
    | some f ↦ add_once f out
  ]
  collect_relation_fields (all_of cs) out = collect_each cs out
  collect_relation_fields (any_of cs) out = collect_each cs out

  collect_each : Conditions → List String → List String
  collect_each nil out = out
  collect_each (cons c cs) out = collect_each cs (collect_relation_fields c out)

abbrev collect_optional : Option PolicyCondition → List String → List String
collect_optional none out = out
collect_optional (some c) out = collect_relation_fields c out

unfoldable collect_rows : List PolicyRow → List String → List String
collect_rows [] out = out
collect_rows (p ∷ ps) out = collect_rows ps (collect_optional p.condition out)

unfoldable pub required_relation_fields : List PolicyRow → List String
unfolding collect_rows
required_relation_fields policies = collect_rows policies []
