-- ===== src/Tests/Queries.antt =====
-- The theorems on the query language of go/query at concrete queries.
use metap.Prelude.{
  lookup, insert, insert_all, List, ◌⊎◌, true, false, none, some, [], ◌∷◌, String, ◌≡◌, ◌≢◌, refl,
}
use metap.Permission.Context.{is_admin, to_value}
use metap.Permission.Condition.{allow, attribute, eq, from_context, PolicyRow}
use metap.Permission.Evaluate.{evaluate_policies, is_allowed}
use metap.Query.Params.{text_bind, uuid_bind, placeholder, decimal}
use metap.Query.Conditions.{
  built, gated, allowing, denying, condition_to_sql, record_policy_where_clause,
}
use metap.Query.Conditions.Where.{AllTranslatable, Filters, record_policy_where_clause_lem}
use metap.Query.Jql.Syntax.{
  ok, out_of_fuel, token, eof, JqlExpr, compare, in_values, is_empty, conj, disj, negation, nil,
  cons, op_eq, str_value,
}
use metap.Query.Jql.Parser.{parse_query}
use metap.Query.Jql.Printer.{print, IsProper}
use metap.Query.Jql.Printer.Roundtrip.{parse_query-print}
use metap.Query.Jql.Codegen.{compile_jql_expr, parse_and_compile_jql}
use metap.Query.Jql.Codegen.Values.{Agree, erase, compile_jql_expr-values}
use metap.Query.Jql.Whole.{parse_and_compile_jql-ne-out_of_fuel}
use metap.Tests.Data.{orders, clerk, policy, no_blocked}

-- status = "<value>" AND NOT (note IN (1, 2) OR note IS EMPTY)
abbrev query : String → JqlExpr
query value = conj (
    cons (compare "status" op_eq (str_value value)) (
      cons
        (negation (
          disj (
            cons (in_values "note" false (str_value "1" ∷ str_value "2" ∷ []))
              (cons (is_empty "note" false) nil))))
        nil))

parse_query-print_example :
    parse_query (print (query "open") (token eof ∷ []))
    ≡ ok (record { expr = some (query "open"); order_by = none })
unfolding IsProper
parse_query-print_example =
    parse_query-print (query "open") ((tt, (tt, ((tt, (tt, (tt, tt))), tt))))

-- A value that looks like SQL.
compile_jql_expr-values_example :
    Agree
      (compile_jql_expr (query "open") orders [])
      (compile_jql_expr (query "x' OR 1=1 --") orders [])
unfolding erase
compile_jql_expr-values_example =
    compile_jql_expr-values (query "open") (query "x' OR 1=1 --") orders [] [] refl refl

parse_and_compile_jql-ne-out_of_fuel_example :
    parse_and_compile_jql "status = 'open' AND NOT (note IN (1, 2)) ORDER BY createdAt DESC" orders
      []
    ≢ out_of_fuel
parse_and_compile_jql-ne-out_of_fuel_example =
    parse_and_compile_jql-ne-out_of_fuel
      "status = 'open' AND NOT (note IN (1, 2)) ORDER BY createdAt DESC" orders []

-- A row that allows the caller's own records, and a row that denies the blocked ones.
abbrev list_rows : List PolicyRow
list_rows =
    policy "p1" "read" "" "record" allow (some (attribute "createdBy" eq (from_context "userId")))
    ∷ no_blocked
    ∷ []

abbrev list_clause : String
list_clause = "((created_by = $1) AND NOT (status = $2))"

list_clause_built :
    record_policy_where_clause (λ s. some s) (λ _. "0") list_rows clerk []
    ≡ built (some list_clause) (uuid_bind "u1" ∷ text_bind "blocked" ∷ [])
unfolding record_policy_where_clause condition_to_sql to_value lookup insert_all insert placeholder
    decimal
list_clause_built = refl

record_policy_where_clause_lem_example :
    ((some list_clause ≡ none) × ((list_rows ≡ []) ⊎ (is_admin clerk ≡ true)))
    ⊎ (((some list_clause ≡ some "false")
          × (is_allowed (evaluate_policies list_rows clerk none) ≡ false))
        ⊎ ((allowing (gated list_rows clerk) ≢ [])
            × Filters
                (λ s. some s)
                (λ _. "0")
                clerk
                (allowing (gated list_rows clerk))
                (denying (gated list_rows clerk))
                []
                (uuid_bind "u1" ∷ text_bind "blocked" ∷ [])
                (some list_clause)
            × AllTranslatable (gated list_rows clerk)))
record_policy_where_clause_lem_example =
    record_policy_where_clause_lem (λ s. some s) (λ _. "0") clerk list_rows []
      (uuid_bind "u1" ∷ text_bind "blocked" ∷ []) (some list_clause) none list_clause_built
