-- ===== src/Query/Jql/Codegen.antt =====
-- go/query/jql_codegen.go: a parsed query as the text of a WHERE clause and the values that are bound
-- to its placeholders.
pub mod Values
use Prim.Native.Char.{Char, code}
use Prim.Native.String.{◌++◌ as append}
use metap.Prelude.{
  ℕ, Bool, true, false, not, Option, none, some, List, [], ◌∷◌, String, ◌==◌, ◌&&◌, ◌||◌, any, eqb,
  singleton, if◌then◌else◌,
}
use metap.Metadata.Entity.{
  EntityDefinition, EntityField, FieldKind, kind_id, kind_string, kind_number, kind_boolean,
  kind_date, kind_datetime, kind_money, kind_enum, kind_reference, kind_json, other_kind, bool_val,
  field_has_real_column,
}
use metap.Query.Params.{BindValue, text_bind, Params, push}
use metap.Query.Jql.Syntax.{
  Jql, ok, invalid, out_of_fuel, JqlCompareOp, op_eq, op_ne, op_gt, op_gte, op_lt, op_lte,
  op_contains, op_not_contains, JqlValue, str_value, bool_value, JqlExpr, compare, in_values,
  is_empty, conj, disj, negation, JqlExprs, nil, cons, JqlOrder, ParsedJql, Tokens,
}
use metap.Query.Jql.Lexer.{jql_tokenize}
use metap.Query.Jql.Parser.{parse_query}

-- A step that adds parameters.
abbrev pub Sql {ℓ} : Type ℓ → Type ℓ
Sql A = Params → Jql (A × Params)

infixl 5 ◌>>=◌ ◌>>◌
abbrev pub ◌>>=◌ {ℓ κ} : {A : Type ℓ} {B : Type κ} → Sql A → (A → Sql B) → Sql B
m >>= f = λ ps. elim (m ps) [
  | ok (a, qs) ↦ f a qs
  | invalid message ↦ invalid message
  | out_of_fuel ↦ out_of_fuel
]

abbrev pub ◌>>◌ {ℓ} : {B : Type ℓ} → Sql (Unit {0}) → Sql B → Sql B
m >> k = m >>= λ _. k

abbrev pub pure {ℓ} : {A : Type ℓ} → A → Sql A
pure a ps = ok (a, ps)

abbrev pub refuse {ℓ} : {A : Type ℓ} → String → Sql A
refuse message ps = invalid message

unfoldable pub bind : BindValue → Sql String
unfolding push
bind v ps = ok (push v ps)

-- Parts of a text in a row.
abbrev pub concat : List String → String
concat [] = ""
concat (s ∷ ss) = append s (concat ss)

pub data JqlFieldType : Type 0 where
  text_type number_type money_type boolean_type date_type datetime_type uuid_type : JqlFieldType

unfoldable pub jql_cast_suffix : JqlFieldType → String
jql_cast_suffix text_type = ""
jql_cast_suffix number_type = "::double precision"
jql_cast_suffix money_type = "::numeric"
jql_cast_suffix boolean_type = "::boolean"
jql_cast_suffix date_type = "::date"
jql_cast_suffix datetime_type = "::timestamptz"
jql_cast_suffix uuid_type = "::uuid"

abbrev field_type_of : FieldKind → JqlFieldType
field_type_of kind_string = text_type
field_type_of kind_enum = text_type
field_type_of kind_json = text_type
field_type_of kind_number = number_type
field_type_of kind_money = money_type
field_type_of kind_boolean = boolean_type
field_type_of kind_date = date_type
field_type_of kind_datetime = datetime_type
field_type_of kind_reference = uuid_type
field_type_of kind_id = uuid_type
field_type_of (other_kind _) = text_type

unfoldable pub find_field : String → List EntityField → Option EntityField
find_field name [] = none
find_field name (f ∷ fs) = let rest = find_field name fs in if f.name == name then some f else rest

-- The expression of a declared field.
abbrev pub declared_field : String → EntityField → Sql (String × JqlFieldType)
declared_field name f =
    if field_has_real_column f
    then pure (concat ("\"" ∷ name ∷ "\"" ∷ []), field_type_of f.kind)
    else λ ps.
        (do
          ph ← bind (text_bind name)
          pure (concat ("jsonb_extract_path_text(data, " ∷ ph ∷ ")" ∷ []), field_type_of f.kind))
          ps

unfoldable pub resolve_jql_field : String → EntityDefinition → Sql (String × JqlFieldType)
unfolding find_field bind
resolve_jql_field name entity =
    if name == "createdAt"
    then pure ("created_at", datetime_type)
    else if name == "updatedAt"
    then pure ("updated_at", datetime_type)
    else elim (find_field name entity.fields) [
      | none ↦ refuse (append "Unknown field: " name)
      | some f ↦ declared_field name f
    ]

abbrev is_ordered : JqlFieldType → Bool
is_ordered number_type = true
is_ordered money_type = true
is_ordered date_type = true
is_ordered datetime_type = true
is_ordered _ = false

abbrev is_text : JqlFieldType → Bool
is_text text_type = true
is_text _ = false

abbrev pub op_allowed : JqlCompareOp → JqlFieldType → Bool
op_allowed op_eq t = true
op_allowed op_ne t = true
op_allowed op_gt t = is_ordered t
op_allowed op_gte t = is_ordered t
op_allowed op_lt t = is_ordered t
op_allowed op_lte t = is_ordered t
op_allowed op_contains t = is_text t
op_allowed op_not_contains t = is_text t

unfoldable pub validate_jql_op : JqlCompareOp → JqlFieldType → String → Sql (Unit {0})
validate_jql_op op t field =
    if op_allowed op t
    then pure tt
    else refuse (concat ("Operator not supported on field `" ∷ field ∷ "`" ∷ []))

unfoldable pub jql_value_to_bind_text : JqlValue → String
jql_value_to_bind_text (str_value s) = s
jql_value_to_bind_text (bool_value true) = "true"
jql_value_to_bind_text (bool_value false) = "false"

abbrev escape_ilike : String → String
escape_ilike String.[] = String.[]
escape_ilike (String.◌∷◌ c s) =
    let rest = String.◌∷◌ c (escape_ilike s) in
    if eqb (code c) b'\\' || eqb (code c) b'%' || eqb (code c) b'_' then append "\\" rest else rest

unfoldable pub jql_ilike_pattern : String → String
jql_ilike_pattern value = concat ("%" ∷ escape_ilike value ∷ "%" ∷ [])

abbrev pub lhs_of : String × JqlFieldType → String
lhs_of (base, t) = concat ("(" ∷ base ∷ ")" ∷ jql_cast_suffix t ∷ [])

-- The SQL operator of a comparison that is neither ~ nor !~.
abbrev sql_operator : JqlCompareOp → String
sql_operator op_eq = "="
sql_operator op_ne = "!="
sql_operator op_gt = ">"
sql_operator op_gte = ">="
sql_operator op_lt = "<"
sql_operator _ = "<="

abbrev pub ilike : String → String → String → JqlValue → Sql String
ilike field lhs operator (bool_value _) =
    refuse (concat ("`~`/`!~` need a string value for field `" ∷ field ∷ "`" ∷ []))
ilike field lhs operator (str_value s) = do
  ph ← bind (text_bind (jql_ilike_pattern s))
  pure (concat ("(" ∷ lhs ∷ operator ∷ ph ∷ ")" ∷ []))

abbrev pub plain_compare : JqlCompareOp → JqlValue → String × JqlFieldType → Sql String
plain_compare op v found = do
  ph ← bind (text_bind (jql_value_to_bind_text v))
  pure (
      concat (
        "(" ∷ lhs_of found ∷ " " ∷ sql_operator op ∷ " " ∷ ph ∷ jql_cast_suffix found.1 ∷ ")" ∷ []))

unfoldable pub compare_sql : String → JqlCompareOp → JqlValue → String × JqlFieldType → Sql String
unfolding jql_value_to_bind_text jql_cast_suffix jql_ilike_pattern bind
compare_sql field op_contains v found = ilike field (lhs_of found) " ILIKE " v
compare_sql field op_not_contains v found = ilike field (lhs_of found) " NOT ILIKE " v
compare_sql field op v found = plain_compare op v found

-- The loop over the values of IN.
unfoldable pub placeholders : JqlFieldType → List JqlValue → Sql (List String)
unfolding bind jql_value_to_bind_text jql_cast_suffix
placeholders t [] = pure []
placeholders t (v ∷ vs) = do
  ph ← bind (text_bind (jql_value_to_bind_text v))
  rest ← placeholders t vs
  pure (append ph (jql_cast_suffix t) ∷ rest)

-- joinSQL
unfoldable pub join_sql : List String → String → String
join_sql [] sep = ""
join_sql (p ∷ []) sep = p
join_sql (p ∷ q ∷ qs) sep = append p (append sep (join_sql (q ∷ qs) sep))

abbrev pub none_given : List JqlValue → Bool
none_given [] = true
none_given (v ∷ vs) = false

unfoldable pub in_sql : String → Bool → List JqlValue → EntityDefinition → Sql String
unfolding resolve_jql_field placeholders join_sql
in_sql field negate values entity =
    if none_given values
    then refuse (concat ("`IN`/`NOT IN` needs at least one value for field `" ∷ field ∷ "`" ∷ []))
    else λ ps.
        (do
          found ← resolve_jql_field field entity
          phs ← placeholders found.1 values
          pure (
              concat (
                "("
                ∷ lhs_of found
                ∷ (if negate then " NOT IN (" else " IN (")
                ∷ join_sql phs ", "
                ∷ "))"
                ∷ [])))
          ps

unfoldable mutual
  unfolding resolve_jql_field validate_jql_op compare_sql in_sql join_sql jql_cast_suffix

  pub compile_jql_expr : JqlExpr → EntityDefinition → Sql String
  compile_jql_expr (conj es) entity = do
    parts ← compile_each es entity
    pure (concat ("(" ∷ join_sql parts " AND " ∷ ")" ∷ []))
  compile_jql_expr (disj es) entity = do
    parts ← compile_each es entity
    pure (concat ("(" ∷ join_sql parts " OR " ∷ ")" ∷ []))
  compile_jql_expr (negation e) entity = do
    s ← compile_jql_expr e entity
    pure (concat ("(NOT " ∷ s ∷ ")" ∷ []))
  compile_jql_expr (is_empty field negate) entity = do
    found ← resolve_jql_field field entity
    pure (concat ("(" ∷ lhs_of found ∷ (if negate then " IS NOT NULL)" else " IS NULL)") ∷ []))
  compile_jql_expr (compare field op v) entity = do
    found ← resolve_jql_field field entity
    validate_jql_op op found.1 field
    compare_sql field op v found
  compile_jql_expr (in_values field negate values) entity = in_sql field negate values entity

  pub compile_each : JqlExprs → EntityDefinition → Sql (List String)
  compile_each nil entity = pure []
  compile_each (cons e es) entity = do
    s ← compile_jql_expr e entity
    rest ← compile_each es entity
    pure (s ∷ rest)

unfoldable pub is_jql_sortable : String → EntityDefinition → Bool
is_jql_sortable name entity =
    (name == "createdAt" || name == "updatedAt")
    || any (λ (f : EntityField). f.name == name && bool_val f.sortable) entity.fields

-- The WHERE clause, if there is a filter, and the order, if there is one.
pub record CompiledJql : Type 0 where
  pub where_sql : Option String
  pub order_by : Option JqlOrder

abbrev pub compile_filter : Option JqlExpr → EntityDefinition → Sql (Option String)
compile_filter none entity = pure none
compile_filter (some e) entity = do s ← compile_jql_expr e entity; pure (some s)

abbrev pub check_order : Option JqlOrder → EntityDefinition → Sql (Option JqlOrder)
check_order none entity = pure none
check_order (some o) entity =
    if is_jql_sortable o.field entity
    then pure (some o)
    else refuse (concat ("Field `" ∷ o.field ∷ "` is not sortable" ∷ []))

unfoldable pub compile_parsed : ParsedJql → EntityDefinition → Sql CompiledJql
unfolding compile_jql_expr is_jql_sortable
compile_parsed parsed entity = do
  where_sql ← compile_filter parsed.expr entity
  order ← check_order parsed.order_by entity
  pure (record { where_sql = where_sql; order_by = order })

abbrev pub compile_result : Jql ParsedJql → EntityDefinition → Sql CompiledJql
compile_result (ok parsed) entity ps = compile_parsed parsed entity ps
compile_result (invalid message) entity ps = invalid message
compile_result out_of_fuel entity ps = out_of_fuel

abbrev pub parse_result : Jql Tokens → Jql ParsedJql
parse_result (ok ts) = parse_query ts
parse_result (invalid message) = invalid message
parse_result out_of_fuel = out_of_fuel

unfoldable pub parse_and_compile_jql : String → EntityDefinition → Sql CompiledJql
unfolding jql_tokenize parse_query compile_parsed
parse_and_compile_jql jql entity = compile_result (parse_result (jql_tokenize jql)) entity
