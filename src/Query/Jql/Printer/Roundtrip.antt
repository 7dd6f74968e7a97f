-- ===== src/Query/Jql/Printer/Roundtrip.antt =====
-- parseQuery of go/query/jql_parser.go on printed queries.
use metap.Prelude.{
  ℕ, suc, ◌+◌, ◌-◌, ◌*◌, ◌≤◌, true, false, none, some, List, [], ◌∷◌, ◌≡◌, refl, ap, length, arith,
}
use metap.Query.Jql.Syntax.{
  ok, JqlTokenKind, right_paren, kw_and, kw_or, eof, token, Tokens, JqlValue, JqlExpr, compare,
  in_values, is_empty, conj, disj, negation, JqlExprs, nil, cons,
}
use metap.Query.Jql.Parser.{
  pure, parse_or, parse_query, parse_filter, parse_order, starts_filter, finished, enough,
}
use metap.Query.Jql.Printer.{
  print, print_parts, print_tail, print_values, print_list, IsProper, cost, cost_each,
}
use metap.Query.Jql.Printer.Values.{bind_ok}
use metap.Query.Jql.Printer.Steps.{or_reads}
use metap.Query.Jql.Printer.Reads.{all_Reads}

length-print_values :
    (vs : List JqlValue) (ts : Tokens) → length (print_values vs ts) ≡ 2 * length vs + length ts
length-print_values [] ts = omega arith
length-print_values (v ∷ vs) ts = omega (arith, length-print_values vs ts)

length-print_list :
    (vs : List JqlValue) (ts : Tokens) → length vs + length ts ≤ length (print_list vs ts)
length-print_list [] ts = omega arith
length-print_list (v ∷ vs) ts = omega (arith, length-print_values vs ts)

-- The fuel of the parser is enough for what is printed.
mutual
  unfolding print cost

  cost-le : (e : JqlExpr) (ts : Tokens) → cost e + 6 * length ts ≤ 6 * length (print e ts)
  cost-le (compare field op v) ts = omega arith
  cost-le (in_values field true vs) ts =
      omega (arith, length-print_list vs (token right_paren ∷ ts))
  cost-le (in_values field false vs) ts =
      omega (arith, length-print_list vs (token right_paren ∷ ts))
  cost-le (is_empty field true) ts = omega arith
  cost-le (is_empty field false) ts = omega arith
  cost-le (conj es) ts = omega (arith, cost_each-le kw_and es (token right_paren ∷ ts))
  cost-le (disj es) ts = omega (arith, cost_each-le kw_or es (token right_paren ∷ ts))
  cost-le (negation e) ts = omega (arith, cost-le e (token right_paren ∷ ts))

  cost_each-le :
      (k : JqlTokenKind) (es : JqlExprs) (ts : Tokens)
      → cost_each es + 6 * length ts ≤ 6 * length (print_parts k es ts) + 6
  cost_each-le k nil ts = omega arith
  cost_each-le k (cons e es) ts =
      omega (arith, cost-le e (print_tail k es ts), cost_tail-le k es ts)

  cost_tail-le :
      (k : JqlTokenKind) (es : JqlExprs) (ts : Tokens)
      → cost_each es + 6 * length ts ≤ 6 * length (print_tail k es ts) + 1
  cost_tail-le k nil ts = omega arith
  cost_tail-le k (cons e es) ts =
      omega (arith, cost-le e (print_tail k es ts), cost_tail-le k es ts)

starts_filter-print : (e : JqlExpr) (ts : Tokens) → starts_filter (print e ts) ≡ true
unfolding print
starts_filter-print (compare field op v) ts = refl
starts_filter-print _ ts = refl

or_enough :
    (e : JqlExpr) (n : ℕ)
    → IsProper e
    → cost e + 3 ≤ n
    → parse_or n (print e (token eof ∷ [])) ≡ ok (e, token eof ∷ [])
or_enough e n proper h =
    let m = n - 3 in
    let split : n ≡ suc (suc (suc m)) = omega arith in
    rw split
      (or_reads m e (token eof) [] refl refl (all_Reads e m (token eof) [] proper (omega arith)))

filter_reads :
    (e : JqlExpr) (n : ℕ)
    → IsProper e
    → cost e + 3 ≤ n
    → parse_filter n (print e (token eof ∷ [])) ≡ ok (some e, token eof ∷ [])
unfolding parse_filter
filter_reads e n proper h =
    rw (starts_filter-print e (token eof ∷ []))
      (bind_ok (parse_or n) _ (print e (token eof ∷ [])) (or_enough e n proper h) refl)

no_order : parse_order (token eof ∷ []) ≡ ok (none, token eof ∷ [])
unfolding parse_order
no_order = refl

-- A query that the grammar can yield is read back from its tokens: every expression whose AND and OR
-- have two parts at least, and whose IN has a value, with the precedence that its parentheses give.
pub parse_query-print :
    (e : JqlExpr)
    → IsProper e
    → parse_query (print e (token eof ∷ [])) ≡ ok (record { expr = some e; order_by = none })
unfolding parse_query
parse_query-print e proper =
    let ts = print e (token eof ∷ []) in
    let read =
      bind_ok (parse_filter (enough ts)) _ ts
        (filter_reads e (enough ts) proper (omega (arith, cost-le e (token eof ∷ []))))
        (bind_ok parse_order (λ order. pure (some e, order)) (token eof ∷ []) no_order refl) in
    ap finished read
