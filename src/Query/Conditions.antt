-- ===== src/Query/Conditions.antt =====
-- go/query/condition_to_sql.go: the conditions of record policies as the text of a WHERE clause, with
-- the values bound to placeholders. Parameters: uuid.Parse, and the text of a JSON number. A failure
-- is a value; the parameters that it leaves behind are not used by any caller.
pub mod Numbers
pub mod Refusals
pub mod Where
use Prim.Native.String.{◌++◌ as append}
use metap.Prelude.{
  ℕ, Bool, true, false, not, Option, none, some, List, [], ◌∷◌, String, ◌==◌, ◌&&◌, ◌||◌, lookup,
  cut, has_prefix, leb, eqb, keep, if◌then◌else◌,
}
use metap.Prelude.Int.{ℤ}
use metap.Json.{Json, null, bool, num, str, arr, obj, as_string, as_bool, as_array, as_object}
use metap.Permission.Context.{RequestContext, to_value, is_admin}
use metap.Permission.Condition.{
  ConditionOp, eq, neq, in_list, not_in, gt, gte, lt, lte, contains, not_contains, unknown,
  PolicyValue, literal, from_context, PolicyCondition, attribute, all_of, any_of, Conditions, nil,
  cons, PolicyRow,
}
use metap.Permission.Resolve.{is_context_attribute, workflow_attribute_prefix}
use metap.Permission.Evaluate.{evaluate_condition, is_passed, role_gate_passed, is_deny}
use metap.Query.Params.{BindValue, text_bind, uuid_bind, Params, push}
use metap.Query.Jql.Codegen.{concat, join_sql}
use metap.Query.Conditions.Numbers.{is_valid_number}

pub data ColType : Type 0 where
  col_uuid col_text col_timestamptz : ColType

pub data ClauseError : Type 0 where
  cross_record unsupported_contains unknown_op : String → ClauseError
  workflow_attribute not_scalar not_uuid no_ordering : ClauseError

pub data Built {ℓ} (A : Type ℓ) : Type ℓ where
  built : A → Params → Built A
  refused : ClauseError → Built A

abbrev pub Clause {ℓ} : Type ℓ → Type ℓ
Clause A = Params → Built A

infixl 5 ◌>>=◌
abbrev pub ◌>>=◌ {ℓ κ} : {A : Type ℓ} {B : Type κ} → Clause A → (A → Clause B) → Clause B
m >>= f = λ ps. elim (m ps) [ built a qs ↦ f a qs | refused e ↦ refused e ]

abbrev pub pure {ℓ} : {A : Type ℓ} → A → Clause A
pure a ps = built a ps

abbrev pub refuse {ℓ} : {A : Type ℓ} → ClauseError → Clause A
refuse e ps = refused e

unfoldable pub bind : BindValue → Clause String
unfolding push
bind v ps = built (push v ps).0 (push v ps).1

-- The columns of every table; any other name is a key of the data.
unfoldable pub column_of : String → Clause (String × ColType)
unfolding bind
column_of field =
    if field == "createdBy"
    then pure ("created_by", col_uuid)
    else if field == "updatedBy"
    then pure ("updated_by", col_uuid)
    else if field == "status"
    then pure ("status", col_text)
    else if field == "createdAt"
    then pure ("created_at", col_timestamptz)
    else if field == "updatedAt"
    then pure ("updated_at", col_timestamptz)
    else (bind (text_bind field) >>= λ ph.
        pure (concat ("jsonb_extract_path_text(data, " ∷ ph ∷ ")" ∷ []), col_text))

unfoldable pub field_expression : String → Clause (String × ColType)
unfolding column_of
field_expression field = elim (cut b'.' field) [
  | some _ ↦ refuse (cross_record field)
  | none ↦ column_of field
]

abbrev or_null : Option Json → Option Json
or_null none = some null
or_null (some v) = some v

abbrev lookup_in : String → Option (List (String × Json)) → Option Json
lookup_in key none = none
lookup_in key (some m) = lookup key m

-- resolveValue: a literal that is missing stays so, and no json.Unmarshal accepts it.
unfoldable pub resolve_expected : PolicyValue → RequestContext → Option Json
resolve_expected (from_context key) ctx = or_null (lookup_in key (as_object (to_value ctx)))
resolve_expected (literal v) ctx = v

abbrev bool_text : Bool → String
bool_text b = if b then "true" else "false"

-- json.Unmarshal into a json.Number succeeds.
unfoldable pub decodes_number : Option Json → Bool
unfolding is_valid_number
decodes_number (some null) = true
decodes_number (some (num n)) = true
decodes_number (some (str s)) = is_valid_number s
decodes_number _ = false

-- The rows whose roles the caller has.
abbrev pub gated : List PolicyRow → RequestContext → List PolicyRow
gated rows ctx = keep (λ (p : PolicyRow). role_gate_passed p.roles p.has_roles ctx.roles) rows

abbrev pub allowing : List PolicyRow → List PolicyRow
allowing rows = keep (λ (p : PolicyRow). not (is_deny p.effect)) rows

abbrev pub denying : List PolicyRow → List PolicyRow
denying rows = keep (λ (p : PolicyRow). is_deny p.effect) rows

module _ (parse_uuid : String → Option String) (number_text : ℤ → String) where
  abbrev number_to_text : Json → Option String
  number_to_text (num n) = some (number_text n)
  number_to_text v = none

  abbrev bool_or_number : Json → Option String
  bool_or_number v = elim (as_bool v) [ some b ↦ some (bool_text b) | none ↦ number_to_text v ]

  unfoldable pub json_scalar_to_text : Option Json → Option String
  json_scalar_to_text none = none
  json_scalar_to_text (some v) = elim (as_string v) [ some s ↦ some s | none ↦ bool_or_number v ]

  abbrev string_of : Option Json → Option String
  string_of none = none
  string_of (some v) = as_string v

  -- The text of a scalar, bound with a cast after its placeholder.
  abbrev bind_text : String → Option Json → Clause String
  bind_text cast v = elim (json_scalar_to_text v) [
    | none ↦ refuse not_scalar
    | some text ↦ bind (text_bind text) >>= λ ph. pure (append ph cast)
  ]

  abbrev bind_uuid : Option String → Clause String
  bind_uuid none = refuse not_uuid
  bind_uuid (some text) = elim (parse_uuid text) [
    | none ↦ refuse not_uuid
    | some u ↦ bind (uuid_bind u)
  ]

  unfoldable pub bind_scalar : ColType → Option Json → Clause String
  unfolding json_scalar_to_text bind
  bind_scalar col_uuid v = bind_uuid (string_of v)
  bind_scalar col_timestamptz v = bind_text "::timestamptz" v
  bind_scalar col_text v = bind_text "" v

  unfoldable pub comparable_expr_and_value :
      String → ColType → Option Json → Clause (String × String)
  unfolding bind_scalar json_scalar_to_text bind
  comparable_expr_and_value expr col_uuid v = refuse no_ordering
  comparable_expr_and_value expr col_timestamptz v =
      bind_text "::timestamptz" v >>= λ rhs. pure (expr, rhs)
  comparable_expr_and_value expr col_text v =
      if decodes_number v
      then (bind_text "::numeric" v >>= λ rhs. pure (concat ("(" ∷ expr ∷ ")::numeric" ∷ []), rhs))
      else (bind_scalar col_text v >>= λ rhs. pure (expr, rhs))

  -- The loop over the values of IN.
  unfoldable pub bind_each : ColType → List Json → Clause (List String)
  unfolding bind_scalar
  bind_each t [] = pure []
  bind_each t (v ∷ vs) = bind_scalar t (some v) >>= λ ph. bind_each t vs >>= λ phs. pure (ph ∷ phs)

  -- The values of a list; anything that is no list has none.
  abbrev values_of : Option Json → List Json
  values_of none = []
  values_of (some v) = elim (as_array v) [ none ↦ [] | some vs ↦ vs ]

  abbrev in_clause : String → ColType → String → String → List Json → Clause String
  in_clause expr t operator empty_result [] = pure empty_result
  in_clause expr t operator empty_result (v ∷ vs) = bind_each t (v ∷ vs) >>= λ phs.
      pure (concat (expr ∷ operator ∷ "(" ∷ join_sql phs ", " ∷ ")" ∷ []))

  abbrev equal_clause : String → ColType → String → Option Json → Clause String
  equal_clause expr t operator v =
      bind_scalar t v >>= λ ph. pure (concat (expr ∷ operator ∷ ph ∷ []))

  abbrev order_clause : String → ColType → String → Option Json → Clause String
  order_clause expr t operator v = comparable_expr_and_value expr t v >>= λ sides.
      pure (concat (sides.0 ∷ operator ∷ sides.1 ∷ []))

  -- The switch on the operator.
  unfoldable pub operator_clause :
      ConditionOp → String → String → ColType → Option Json → Clause String
  unfolding bind_scalar comparable_expr_and_value bind_each join_sql
  operator_clause eq path expr t v = equal_clause expr t " = " v
  operator_clause neq path expr t v = equal_clause expr t " != " v
  operator_clause in_list path expr t v = in_clause expr t " IN " "false" (values_of v)
  operator_clause not_in path expr t v = in_clause expr t " NOT IN " "true" (values_of v)
  operator_clause gt path expr t v = order_clause expr t " > " v
  operator_clause gte path expr t v = order_clause expr t " >= " v
  operator_clause lt path expr t v = order_clause expr t " < " v
  operator_clause lte path expr t v = order_clause expr t " <= " v
  operator_clause contains path expr t v = refuse (unsupported_contains path)
  operator_clause not_contains path expr t v = refuse (unsupported_contains path)
  operator_clause (unknown name) path expr t v = refuse (unknown_op name)

  -- A condition on one attribute.
  unfoldable pub attribute_clause :
      String → ConditionOp → PolicyValue → RequestContext → Clause String
  unfolding is_context_attribute evaluate_condition field_expression resolve_expected
      operator_clause
  attribute_clause path op value ctx =
      let constant = is_passed (evaluate_condition (attribute path op value) null ctx) in
      if is_context_attribute path
      then pure (bool_text constant)
      else if has_prefix path workflow_attribute_prefix
      then refuse workflow_attribute
      else (field_expression path >>= λ found.
          operator_clause op path found.0 found.1 (resolve_expected value ctx))

  abbrev pub joined : String → List String → String
  joined sep clauses = concat ("(" ∷ join_sql clauses sep ∷ ")" ∷ [])

  unfoldable mutual
    unfolding attribute_clause join_sql

    pub condition_to_sql : PolicyCondition → RequestContext → Clause String
    condition_to_sql (attribute path op value) ctx = attribute_clause path op value ctx
    condition_to_sql (all_of nil) ctx = pure "true"
    condition_to_sql (all_of (cons c cs)) ctx =
        each_to_sql (cons c cs) ctx >>= λ clauses. pure (joined " AND " clauses)
    condition_to_sql (any_of nil) ctx = pure "false"
    condition_to_sql (any_of (cons c cs)) ctx =
        each_to_sql (cons c cs) ctx >>= λ clauses. pure (joined " OR " clauses)

    pub each_to_sql : Conditions → RequestContext → Clause (List String)
    each_to_sql nil ctx = pure []
    each_to_sql (cons c cs) ctx = condition_to_sql c ctx >>= λ clause.
        each_to_sql cs ctx >>= λ clauses. pure (clause ∷ clauses)

  -- A row without a condition always applies.
  abbrev pub row_clause : Option PolicyCondition → RequestContext → Clause String
  row_clause none ctx = pure "true"
  row_clause (some c) ctx = condition_to_sql c ctx

  -- The loop over the allowing rows, and over the denying ones.
  unfoldable pub row_clauses : List PolicyRow → RequestContext → Clause (List String)
  unfolding condition_to_sql
  row_clauses [] ctx = pure []
  row_clauses (p ∷ ps) ctx = row_clause p.condition ctx >>= λ clause.
      row_clauses ps ctx >>= λ clauses. pure (clause ∷ clauses)

  -- The allowing rows' clauses are there; those of the denying rows are still to come.
  abbrev pub deny_clause : String → List PolicyRow → RequestContext → Clause (Option String)
  deny_clause allow_sql [] ctx = pure (some allow_sql)
  deny_clause allow_sql (p ∷ ps) ctx = row_clauses (p ∷ ps) ctx >>= λ clauses.
      pure (some (concat ("(" ∷ allow_sql ∷ " AND NOT " ∷ joined " OR " clauses ∷ ")" ∷ [])))

  abbrev pub allow_clause :
      List PolicyRow → List PolicyRow → RequestContext → Clause (Option String)
  allow_clause [] denies ctx = pure (some "false")
  allow_clause (p ∷ ps) denies ctx =
      row_clauses (p ∷ ps) ctx >>= λ clauses. deny_clause (joined " OR " clauses) denies ctx

  abbrev pub none_of : List PolicyRow → Bool
  none_of [] = true
  none_of (p ∷ ps) = false

  -- `none` is no restriction.
  unfoldable pub record_policy_where_clause :
      List PolicyRow → RequestContext → Clause (Option String)
  unfolding is_admin role_gate_passed row_clauses join_sql
  record_policy_where_clause rows ctx =
      if none_of rows || is_admin ctx
      then pure none
      else allow_clause (allowing (gated rows ctx)) (denying (gated rows ctx)) ctx
