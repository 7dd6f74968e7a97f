-- ===== src/Query/Jql/Whole.antt =====
-- ParseAndCompileJQL of go/query/jql_codegen.go from end to end.
use metap.Prelude.{ℕ, Option, none, some, String, ◌≢◌, refl, Bool-cases, inl, inr}
use metap.Metadata.Entity.{EntityDefinition}
use metap.Query.Params.{Params}
use metap.Query.Jql.Syntax.{Jql, ok, invalid, out_of_fuel, Tokens, ParsedJql, JqlExpr, JqlOrder}
use metap.Query.Jql.Lexer.{jql_tokenize, text_length}
use metap.Query.Jql.Lexer.Total.{IsLexed, jql_tokenize-IsLexed}
use metap.Query.Jql.Parser.{parse_query}
use metap.Query.Jql.Parser.Total.{parse_query-ne-out_of_fuel}
use metap.Query.Jql.Codegen.{
  Sql, parse_result, compile_result, compile_filter, check_order, is_jql_sortable, compile_parsed,
  compile_jql_expr, parse_and_compile_jql,
}
use metap.Query.Jql.Codegen.Values.{compile-ne-out_of_fuel}

abbrev Ends {ℓ} : {A : Type ℓ} → Jql A → Type 0
Ends (ok a) = Unit {0}
Ends (invalid message) = Unit {0}
Ends out_of_fuel = ⊥

Ends-of_ne {ℓ} : {A : Type ℓ} (r : Jql A) → r ≢ out_of_fuel → Ends r
Ends-of_ne (ok a) h = tt
Ends-of_ne (invalid message) h = tt
Ends-of_ne out_of_fuel h = absurd (h refl)

ne_of_Ends {ℓ} : {A : Type ℓ} (r : Jql A) → Ends r → r ≢ out_of_fuel
ne_of_Ends (ok a) h = λ e. cc
ne_of_Ends (invalid message) h = λ e. cc
ne_of_Ends out_of_fuel h = absurd h

bind-Ends :
    {A B : Type 0} (r : Jql (A × Params)) (f : A → Sql B)
    → Ends r
    → ((a : A) (ps : Params) → Ends (f a ps))
    → Ends (elim r [
      | ok (a, qs) ↦ f a qs
      | invalid message ↦ invalid message
      | out_of_fuel ↦ out_of_fuel
    ])
bind-Ends (ok (a, ps)) f h go = go a ps
bind-Ends (invalid message) f h go = tt
bind-Ends out_of_fuel f h go = h

parsed-Ends : (n : ℕ) (r : Jql Tokens) → IsLexed n r → Ends (parse_result r)
parsed-Ends n (ok ts) h = Ends-of_ne (parse_query ts) (parse_query-ne-out_of_fuel ts h.0)
parsed-Ends n (invalid message) h = tt
parsed-Ends n out_of_fuel h = h

filter-Ends :
    (e : Option JqlExpr) (entity : EntityDefinition) (ps : Params)
    → Ends (compile_filter e entity ps)
filter-Ends none entity ps = tt
filter-Ends (some e) entity ps =
    bind-Ends (compile_jql_expr e entity ps) _
      (Ends-of_ne (compile_jql_expr e entity ps) (compile-ne-out_of_fuel e entity ps)) (λ s qs. tt)

order-Ends :
    (o : Option JqlOrder) (entity : EntityDefinition) (ps : Params) → Ends (check_order o entity ps)
order-Ends none entity ps = tt
order-Ends (some o) entity ps = elim (Bool-cases (is_jql_sortable o.field entity)) [
  | inl sortable ↦ rw (sortable, Ends) tt
  | inr other ↦ rw (other, Ends) tt
]

compiled-Ends :
    (r : Jql ParsedJql) (entity : EntityDefinition) (ps : Params)
    → Ends r
    → Ends (compile_result r entity ps)
unfolding compile_parsed
compiled-Ends (ok parsed) entity ps h =
    bind-Ends (compile_filter parsed.expr entity ps) _ (filter-Ends parsed.expr entity ps)
      (λ where_sql qs.
        bind-Ends (check_order parsed.order_by entity qs) _ (order-Ends parsed.order_by entity qs)
          (λ order xs. tt))
compiled-Ends (invalid message) entity ps h = tt
compiled-Ends out_of_fuel entity ps h = h

-- The compilation of a query ends for every text: the rounds of the lexer and the calls of the parser
-- never exceed the fuel, which is one more than the characters, and six for each token and six more.
pub parse_and_compile_jql-ne-out_of_fuel :
    (jql : String) (entity : EntityDefinition) (ps : Params)
    → parse_and_compile_jql jql entity ps ≢ out_of_fuel
unfolding parse_and_compile_jql
parse_and_compile_jql-ne-out_of_fuel jql entity ps =
    ne_of_Ends (compile_result (parse_result (jql_tokenize jql)) entity ps) (
      compiled-Ends (parse_result (jql_tokenize jql)) entity ps
        (parsed-Ends (text_length jql) (jql_tokenize jql) (jql_tokenize-IsLexed jql)))
