-- ===== src/Permission/Codec.antt =====
-- The JSON form of conditions: MarshalJSON and UnmarshalJSON of go/permission/condition.go. Go matches
-- the keys of a struct without regard to case; the model matches them exactly.
pub mod Roundtrip
use metap.Prelude.{Option, none, some, [], ◌∷◌, String, ◌==◌, if◌then◌else◌}
use metap.Json.{Json, null, str, arr, obj, Items, Fields, field, end, object, as_string}
use metap.Json
use metap.Permission.Condition.{
  ConditionOp, eq, neq, in_list, not_in, gt, gte, lt, lte, contains, not_contains, unknown,
  PolicyValue, literal, from_context, PolicyCondition, attribute, all_of, any_of, Conditions, nil,
  cons,
}

-- An Unmarshal returns a value or an error, or panics.
pub data Decoded {ℓ} (A : Type ℓ) : Type ℓ where
  decoded : A → Decoded A
  malformed panicked : Decoded A

infixl 5 ◌>>=◌
abbrev pub ◌>>=◌ {ℓ κ} : {A : Type ℓ} {B : Type κ} → Decoded A → (A → Decoded B) → Decoded B
decoded a >>= f = f a
malformed >>= f = malformed
panicked >>= f = panicked

abbrev pub op_name : ConditionOp → String
op_name eq = "eq"
op_name neq = "neq"
op_name in_list = "in"
op_name not_in = "notIn"
op_name gt = "gt"
op_name gte = "gte"
op_name lt = "lt"
op_name lte = "lte"
op_name contains = "contains"
op_name not_contains = "notContains"
op_name (unknown s) = s

abbrev pub op_of_name : String → ConditionOp
op_of_name s =
    if s == "eq"
    then eq
    else if s == "neq"
    then neq
    else if s == "in"
    then in_list
    else if s == "notIn"
    then not_in
    else if s == "gt"
    then gt
    else if s == "gte"
    then gte
    else if s == "lt"
    then lt
    else if s == "lte"
    then lte
    else if s == "contains"
    then contains
    else if s == "notContains"
    then not_contains
    else unknown s

unfoldable marshal_value : PolicyValue → Json
marshal_value (from_context key) = object (("fromContext", str key) ∷ [])
marshal_value (literal none) = object (("literal", null) ∷ [])
marshal_value (literal (some v)) = object (("literal", v) ∷ [])

unfoldable mutual
  unfolding marshal_value

  pub marshal_condition : PolicyCondition → Json
  marshal_condition (attribute path op value) =
      object
        (("attribute", str path) ∷ ("op", str (op_name op)) ∷ ("value", marshal_value value) ∷ [])
  marshal_condition (all_of cs) = object (("all", arr (marshal_all cs)) ∷ [])
  marshal_condition (any_of cs) = object (("any", arr (marshal_all cs)) ∷ [])

  marshal_all : Conditions → Items
  marshal_all nil = Json.nil
  marshal_all (cons c cs) = Json.cons (marshal_condition c) (marshal_all cs)

-- A `*string` field: null leaves it nil.
unfoldable optional_string : Json → Decoded (Option String)
optional_string null = decoded none
optional_string (str s) = decoded (some s)
optional_string _ = malformed

record ValueProbe : Type 0 where
  from_context : Option String
  literal : Option Json

abbrev empty_value : ValueProbe
empty_value = record { from_context = none; literal = none }

-- A key that comes again counts anew.
unfoldable probe_value : Fields → ValueProbe → Decoded ValueProbe
unfolding optional_string
probe_value end p = decoded p
probe_value (field k v fs) p =
    (if k == "fromContext"
      then (do s ← optional_string v; decoded (record p { from_context = s }))
      else if k == "literal"
      then decoded (record p { literal = some v })
      else decoded p)
    >>= λ q. probe_value fs q

unfoldable value_of : ValueProbe → PolicyValue
value_of p = elim p.from_context [ some key ↦ from_context key | none ↦ literal p.literal ]

unfoldable unmarshal_value : Json → Decoded PolicyValue
unfolding probe_value value_of
unmarshal_value null = decoded (literal none)
unmarshal_value (obj fs) = do p ← probe_value fs empty_value; decoded (value_of p)
unmarshal_value _ = malformed

-- A `*PolicyValue` field.
unfoldable pub optional_value : Json → Decoded (Option PolicyValue)
unfolding unmarshal_value
optional_value null = decoded none
optional_value v = do p ← unmarshal_value v; decoded (some p)

record ConditionProbe : Type 0 where
  attribute : Option String
  op : String
  value : Option PolicyValue
  all : Option Conditions
  any : Option Conditions

abbrev empty_condition : ConditionProbe
empty_condition = record { attribute = none; op = ""; value = none; all = none; any = none }

-- A string field: null leaves it as it is.
unfoldable plain_string : Json → String → Decoded String
plain_string null old = decoded old
plain_string (str s) old = decoded s
plain_string _ old = malformed

-- The switch of UnmarshalJSON; it dereferences the value of an attribute without a test.
unfoldable condition_of : ConditionProbe → Decoded PolicyCondition
condition_of p = elim p.attribute [
  | some path ↦ elim p.value [
    | some value ↦ decoded (attribute path (op_of_name p.op) value)
    | none ↦ panicked
  ]
  | none ↦ elim p.all [
    | some cs ↦ decoded (all_of cs)
    | none ↦ elim p.any [ some cs ↦ decoded (any_of cs) | none ↦ malformed ]
  ]
]

unfoldable mutual
  unfolding condition_of plain_string optional_string optional_value

  pub unmarshal_condition : Json → Decoded PolicyCondition
  unmarshal_condition null = condition_of empty_condition
  unmarshal_condition (obj fs) = unmarshal_fields fs empty_condition >>= condition_of
  unmarshal_condition _ = malformed

  -- A slice field: null leaves it nil.
  unmarshal_slice : Json → Decoded (Option Conditions)
  unmarshal_slice null = decoded none
  unmarshal_slice (arr xs) = do cs ← unmarshal_items xs; decoded (some cs)
  unmarshal_slice _ = malformed

  unmarshal_items : Items → Decoded Conditions
  unmarshal_items Json.nil = decoded nil
  unmarshal_items (Json.cons x xs) = do
    c ← unmarshal_condition x
    cs ← unmarshal_items xs
    decoded (cons c cs)

  unmarshal_fields : Fields → ConditionProbe → Decoded ConditionProbe
  unmarshal_fields end p = decoded p
  unmarshal_fields (field k v fs) p =
      let slice = unmarshal_slice v in
      (if k == "attribute"
        then (do s ← optional_string v; decoded (record p { attribute = s }))
        else if k == "op"
        then (do s ← plain_string v p.op; decoded (record p { op = s }))
        else if k == "value"
        then (do q ← optional_value v; decoded (record p { value = q }))
        else if k == "all"
        then (do cs ← slice; decoded (record p { all = cs }))
        else if k == "any"
        then (do cs ← slice; decoded (record p { any = cs }))
        else decoded p)
      >>= λ q. unmarshal_fields fs q
