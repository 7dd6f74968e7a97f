-- ===== src/Query/Jql/Parser/Total.antt =====
-- The calls of the parser of go/query/jql_parser.go on the tokens of a query.
use metap.Prelude.{
  ℕ, zero, suc, ◌+◌, ◌*◌, ◌<◌, Option, String, ◌≢◌, refl, length, arith, Bool-cases, inl, inr,
}
use metap.Query.Jql.Syntax.{
  Jql, ok, invalid, out_of_fuel, left_paren, right_paren, kw_and, kw_or, kw_not, kw_order, kw_by,
  kw_asc, kw_desc, Tokens, JqlExpr, JqlExprs, JqlOrder, nil, cons,
}
use metap.Query.Jql.Lexer.Total.{EndsWithEof}
use metap.Query.Jql.Parser.{
  step_over, expect, expect_ident, snoc, parse_or, more_or, parse_and, more_and, parse_not,
  parse_primary, parse_direction, parse_order, parse_filter, starts_filter, finished, parse_query,
  enough, filter_and_order,
}
use metap.Query.Jql.Parser.Leaves.{
  Leaves, bind-Leaves, eat-Leaves, expect-Leaves, expect_ident-Leaves, weaken,
  parse_comparison-Leaves,
}

mutual
  unfolding parse_or

  parse_or-Leaves :
      (n : ℕ) (ts : Tokens)
      → EndsWithEof ts
      → 6 * length ts + 4 < n
      → Leaves (length ts) (parse_or n ts)
  parse_or-Leaves zero ts h fits = absurd (omega arith)
  parse_or-Leaves (suc n) ts h fits =
      bind-Leaves (length ts) (length ts) (parse_and n ts) _ (parse_and-Leaves n ts h (omega arith))
        (λ first r1 e1 l1.
          bind-Leaves (suc (length r1)) (length ts) (more_or n (cons first nil) r1) _
            (more_or-Leaves n (cons first nil) r1 e1 (omega arith))
            (λ parts r2 e2 l2. (e2, omega arith)))

  more_or-Leaves :
      (n : ℕ) (parts : JqlExprs) (ts : Tokens)
      → EndsWithEof ts
      → 6 * length ts < n
      → Leaves (suc (length ts)) (more_or n parts ts)
  more_or-Leaves zero parts ts h fits = absurd (omega arith)
  more_or-Leaves (suc n) parts ts h fits =
      eat-Leaves kw_or (suc (length ts)) ts _ h refl
        (λ ends shorter.
          bind-Leaves (length (step_over ts)) (suc (length ts)) (parse_and n (step_over ts)) _
            (parse_and-Leaves n (step_over ts) ends (omega arith))
            (λ e rest e' l.
              weaken (suc (length rest)) (suc (length ts)) (more_or n (snoc parts e) rest)
                (omega arith) (more_or-Leaves n (snoc parts e) rest e' (omega arith))))
        (h, omega arith)

  parse_and-Leaves :
      (n : ℕ) (ts : Tokens)
      → EndsWithEof ts
      → 6 * length ts + 3 < n
      → Leaves (length ts) (parse_and n ts)
  parse_and-Leaves zero ts h fits = absurd (omega arith)
  parse_and-Leaves (suc n) ts h fits =
      bind-Leaves (length ts) (length ts) (parse_not n ts) _ (parse_not-Leaves n ts h (omega arith))
        (λ first r1 e1 l1.
          bind-Leaves (suc (length r1)) (length ts) (more_and n (cons first nil) r1) _
            (more_and-Leaves n (cons first nil) r1 e1 (omega arith))
            (λ parts r2 e2 l2. (e2, omega arith)))

  more_and-Leaves :
      (n : ℕ) (parts : JqlExprs) (ts : Tokens)
      → EndsWithEof ts
      → 6 * length ts < n
      → Leaves (suc (length ts)) (more_and n parts ts)
  more_and-Leaves zero parts ts h fits = absurd (omega arith)
  more_and-Leaves (suc n) parts ts h fits =
      eat-Leaves kw_and (suc (length ts)) ts _ h refl
        (λ ends shorter.
          bind-Leaves (length (step_over ts)) (suc (length ts)) (parse_not n (step_over ts)) _
            (parse_not-Leaves n (step_over ts) ends (omega arith))
            (λ e rest e' l.
              weaken (suc (length rest)) (suc (length ts)) (more_and n (snoc parts e) rest)
                (omega arith) (more_and-Leaves n (snoc parts e) rest e' (omega arith))))
        (h, omega arith)

  parse_not-Leaves :
      (n : ℕ) (ts : Tokens)
      → EndsWithEof ts
      → 6 * length ts + 2 < n
      → Leaves (length ts) (parse_not n ts)
  parse_not-Leaves zero ts h fits = absurd (omega arith)
  parse_not-Leaves (suc n) ts h fits =
      eat-Leaves kw_not (length ts) ts _ h refl
        (λ ends shorter.
          bind-Leaves (length (step_over ts)) (length ts) (parse_not n (step_over ts)) _
            (parse_not-Leaves n (step_over ts) ends (omega arith))
            (λ e rest e' l. (e', omega arith)))
        (parse_primary-Leaves n ts h (omega arith))

  parse_primary-Leaves :
      (n : ℕ) (ts : Tokens)
      → EndsWithEof ts
      → 6 * length ts + 1 < n
      → Leaves (length ts) (parse_primary n ts)
  parse_primary-Leaves zero ts h fits = absurd (omega arith)
  parse_primary-Leaves (suc n) ts h fits =
      eat-Leaves left_paren (length ts) ts _ h refl
        (λ ends shorter.
          bind-Leaves (length (step_over ts)) (length ts) (parse_or n (step_over ts)) _
            (parse_or-Leaves n (step_over ts) ends (omega arith))
            (λ e r1 e1 l1.
              bind-Leaves (length r1) (length ts) (expect right_paren "`)`" r1) _
                (expect-Leaves right_paren "`)`" r1 e1 refl) (λ _ r2 e2 l2. (e2, omega arith))))
        (parse_comparison-Leaves n ts h (omega arith))

parse_direction-Leaves :
    (field : String) (ts : Tokens)
    → EndsWithEof ts
    → Leaves (suc (length ts)) (parse_direction field ts)
unfolding parse_direction
parse_direction-Leaves field ts h =
    eat-Leaves kw_desc (suc (length ts)) ts _ h refl (λ ends shorter. (ends, omega arith))
      (eat-Leaves kw_asc (suc (length ts)) ts _ h refl (λ ends shorter. (ends, omega arith))
        (h, omega arith))

parse_order-Leaves : (ts : Tokens) → EndsWithEof ts → Leaves (suc (length ts)) (parse_order ts)
unfolding parse_order
parse_order-Leaves ts h =
    eat-Leaves kw_order (suc (length ts)) ts _ h refl
      (λ ends shorter.
        bind-Leaves (length (step_over ts)) (suc (length ts))
          (expect kw_by "`BY` after `ORDER`" (step_over ts)) _
          (expect-Leaves kw_by "`BY` after `ORDER`" (step_over ts) ends refl)
          (λ _ r1 e1 l1.
            bind-Leaves (length r1) (suc (length ts)) (expect_ident r1) _
              (expect_ident-Leaves r1 e1)
              (λ field r2 e2 l2.
                weaken (suc (length r2)) (suc (length ts)) (parse_direction field r2) (omega arith)
                  (parse_direction-Leaves field r2 e2))))
      (h, omega arith)

parse_filter-Leaves :
    (ts : Tokens) → EndsWithEof ts → Leaves (suc (length ts)) (parse_filter (enough ts) ts)
unfolding parse_filter
parse_filter-Leaves ts h = elim (Bool-cases (starts_filter ts)) [
  | inl filtered ↦
      rw (filtered, Leaves)
        (bind-Leaves (length ts) (suc (length ts)) (parse_or (enough ts) ts) _
          (parse_or-Leaves (enough ts) ts h (omega arith)) (λ e rest e1 l1. (e1, omega arith)))
  | inr unfiltered ↦ rw (unfiltered, Leaves) (h, omega arith)
]

filter_and_order-Leaves :
    (ts : Tokens) → EndsWithEof ts → Leaves (suc (length ts)) (filter_and_order (enough ts) ts)
filter_and_order-Leaves ts h =
    bind-Leaves (suc (length ts)) (suc (length ts)) (parse_filter (enough ts) ts) _
      (parse_filter-Leaves ts h)
      (λ expr r1 e1 l1.
        bind-Leaves (suc (length r1)) (suc (length ts)) (parse_order r1) _
          (parse_order-Leaves r1 e1) (λ order r2 e2 l2. (e2, omega arith)))

finished-ne-out_of_fuel :
    (n : ℕ) (r : Jql ((Option JqlExpr × Option JqlOrder) × Tokens))
    → Leaves n r
    → finished r ≢ out_of_fuel
finished-ne-out_of_fuel n (ok ((expr, order), rest)) h = ground arith
finished-ne-out_of_fuel n (invalid message) h = λ e. cc
finished-ne-out_of_fuel n out_of_fuel h = absurd h

-- The fuel of the parser is enough for all tokens that the lexer yields.
pub parse_query-ne-out_of_fuel : (ts : Tokens) → EndsWithEof ts → parse_query ts ≢ out_of_fuel
unfolding parse_query
parse_query-ne-out_of_fuel ts h =
    finished-ne-out_of_fuel (suc (length ts)) (filter_and_order (enough ts) ts)
      (filter_and_order-Leaves ts h)
