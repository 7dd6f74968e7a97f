-- ===== src/Query/Jql/Parser/Leaves.antt =====
-- What a step of go/query/jql_parser.go leaves of the tokens, up to a whole comparison.
use metap.Prelude.{
  ℕ, zero, suc, ◌≤◌, ◌<◌, Bool, true, false, List, [], ◌∷◌, ◌++◌, String, ◌≡◌, ◌⊎◌, refl, length,
  arith, Bool-cases, inl, inr,
}
use metap.Query.Jql.Syntax.{
  Jql, ok, invalid, out_of_fuel, JqlTokenKind, left_paren, right_paren, comma, eq, ne, gt, gte, lt,
  lte, tilde, not_tilde, kw_not, kw_in, kw_is, kw_empty, eof, same_kind, Tokens, JqlCompareOp,
  op_eq, op_ne, op_gt, op_gte, op_lt, op_lte, op_contains, op_not_contains, JqlValue,
}
use metap.Query.Jql.Lexer.Total.{EndsWithEof}
use metap.Query.Jql.Parser.{
  Parser, ◌>>=◌, peek, advance, step_over, eat, expect, expect_ident, parse_value, more_values,
  parse_value_list, compare_with, after_operator, parse_comparison,
}

-- The parser has come to a result or to a message; what it leaves ends with the end of the input and
-- has fewer tokens than `n`.
abbrev pub Leaves {ℓ} : {A : Type ℓ} → ℕ → Jql (A × Tokens) → Type 0
Leaves n (ok (a, rest)) = EndsWithEof rest × (length rest < n)
Leaves n (invalid message) = Unit {0}
Leaves n out_of_fuel = ⊥

module _ {ℓ κ} {A : Type ℓ} {B : Type κ} where
  pub bind-Leaves :
      (n k : ℕ) (r : Jql (A × Tokens)) (f : A → Parser B)
      → Leaves n r
      → ((a : A) (rest : Tokens) → EndsWithEof rest → length rest < n → Leaves k (f a rest))
      → Leaves k (elim r [
        | ok (a, rest) ↦ f a rest
        | invalid message ↦ invalid message
        | out_of_fuel ↦ out_of_fuel
      ])
  bind-Leaves n k (ok (a, rest)) f h go = go a rest h.0 h.1
  bind-Leaves n k (invalid message) f h go = tt
  bind-Leaves n k out_of_fuel f h go = absurd h

-- What follows a token that is not the end.
step_over-shorter :
    (ts : Tokens)
    → EndsWithEof ts
    → same_kind (peek ts).kind eof ≡ false
    → EndsWithEof (step_over ts) × (length (step_over ts) < length ts)
step_over-shorter [] h k = absurd h
step_over-shorter (t ∷ []) h k = absurd (cc)
step_over-shorter (t ∷ u ∷ us) h k = (h.1, omega arith)

step_over-le :
    (ts : Tokens)
    → EndsWithEof ts
    → EndsWithEof (step_over ts) × (length (step_over ts) ≤ length ts)
step_over-le [] h = absurd h
step_over-le (t ∷ []) h = (h, omega arith)
step_over-le (t ∷ u ∷ us) h = (h.1, omega arith)

advance_lem : (ts : Tokens) → advance ts ≡ ok (peek ts, step_over ts)
unfolding advance
advance_lem [] = refl
advance_lem (t ∷ []) = refl
advance_lem (t ∷ u ∷ us) = refl

-- A token is eaten, or nothing happens.
eat_cases :
    (k : JqlTokenKind) (ts : Tokens)
    → EndsWithEof ts
    → same_kind k eof ≡ false
    → ((eat k ts ≡ ok (true, step_over ts))
        × EndsWithEof (step_over ts)
        × (length (step_over ts) < length ts))
      ⊎ (eat k ts ≡ ok (false, ts))
unfolding eat
eat_cases k ts h not_eof = elim (Bool-cases (same_kind (peek ts).kind k)) [
  | inl here ↦
      let inner : same_kind (peek ts).kind eof ≡ false = ground arith in
      let shorter = step_over-shorter ts h inner in inl (rw here refl, shorter.0, shorter.1)
  | inr other ↦ inr (rw other refl)
]

-- A step that depends on whether a token is eaten.
pub eat-Leaves {ℓ} :
    {B : Type ℓ} (k : JqlTokenKind) (n : ℕ) (ts : Tokens) (f : Bool → Parser B)
    → EndsWithEof ts
    → same_kind k eof ≡ false
    → (EndsWithEof (step_over ts)
        → length (step_over ts) < length ts
        → Leaves n (f true (step_over ts)))
    → Leaves n (f false ts)
    → Leaves n ((eat k >>= f) ts)
eat-Leaves k n ts f h not_eof go stay = elim (eat_cases k ts h not_eof) [
  | inl (eaten, ends, shorter) ↦ rw (eaten, Leaves) (go ends shorter)
  | inr missed ↦ rw (missed, Leaves) stay
]

pub expect-Leaves :
    (k : JqlTokenKind) (what : String) (ts : Tokens)
    → EndsWithEof ts
    → same_kind k eof ≡ false
    → Leaves (length ts) (expect k what ts)
unfolding expect
expect-Leaves k what ts h not_eof =
    eat-Leaves k (length ts) ts _ h not_eof (λ ends shorter. (ends, shorter)) tt

pub expect_ident-Leaves : (ts : Tokens) → EndsWithEof ts → Leaves (length ts) (expect_ident ts)
unfolding expect_ident
expect_ident-Leaves [] h = absurd h
expect_ident-Leaves (t ∷ []) h = ground arith
expect_ident-Leaves (t ∷ u ∷ us) h = ground arith

parse_value-Leaves : (ts : Tokens) → EndsWithEof ts → Leaves (length ts) (parse_value ts)
unfolding parse_value
parse_value-Leaves [] h = absurd h
parse_value-Leaves (t ∷ []) h = ground arith
parse_value-Leaves (t ∷ u ∷ us) h = ground arith

pub weaken {ℓ} : {A : Type ℓ} (m n : ℕ) (r : Jql (A × Tokens)) → m ≤ n → Leaves m r → Leaves n r
weaken m n (ok (a, rest)) le h = (h.0, omega arith)
weaken m n (invalid message) le h = tt
weaken m n out_of_fuel le h = h

more_values-Leaves :
    (fuel : ℕ) (values : List JqlValue) (ts : Tokens)
    → EndsWithEof ts
    → length ts < fuel
    → Leaves (suc (length ts)) (more_values fuel values ts)
unfolding more_values
more_values-Leaves zero values ts h fits = absurd (omega arith)
more_values-Leaves (suc fuel) values ts h fits =
    eat-Leaves comma (suc (length ts)) ts _ h refl
      (λ ends shorter.
        bind-Leaves (length (step_over ts)) (suc (length ts)) (parse_value (step_over ts)) _
          (parse_value-Leaves (step_over ts) ends)
          (λ v rest e lt'.
            weaken (suc (length rest)) (suc (length ts)) (more_values fuel (values ++ v ∷ []) rest)
              (omega arith) (more_values-Leaves fuel (values ++ v ∷ []) rest e (omega arith))))
      (h, omega arith)

parse_value_list-Leaves :
    (fuel : ℕ) (ts : Tokens)
    → EndsWithEof ts
    → length ts < fuel
    → Leaves (length ts) (parse_value_list fuel ts)
unfolding parse_value_list
parse_value_list-Leaves fuel ts h fits =
    bind-Leaves (length ts) (length ts) (expect left_paren "`(` after `IN`" ts) _
      (expect-Leaves left_paren "`(` after `IN`" ts h refl)
      (λ _ r1 e1 l1.
        bind-Leaves (length r1) (length ts) (parse_value r1) _ (parse_value-Leaves r1 e1)
          (λ v r2 e2 l2.
            bind-Leaves (suc (length r2)) (length ts) (more_values fuel (v ∷ []) r2) _
              (more_values-Leaves fuel (v ∷ []) r2 e2 (omega arith))
              (λ values r3 e3 l3.
                bind-Leaves (length r3) (length ts)
                  (expect right_paren "`)` to close the value list" r3) _
                  (expect-Leaves right_paren "`)` to close the value list" r3 e3 refl)
                  (λ _ r4 e4 l4. (e4, omega arith)))))

compare_with-Leaves :
    (field : String) (op : JqlCompareOp) (ts : Tokens)
    → EndsWithEof ts
    → Leaves (length ts) (compare_with field op ts)
compare_with-Leaves field op ts h =
    bind-Leaves (length ts) (length ts) (parse_value ts) _ (parse_value-Leaves ts h)
      (λ v rest e l. (e, l))

after_operator-Leaves :
    (fuel : ℕ) (field : String) (k : JqlTokenKind) (ts : Tokens)
    → EndsWithEof ts
    → length ts < fuel
    → Leaves (length ts) (after_operator fuel field k ts)
unfolding after_operator
after_operator-Leaves fuel field eq ts h fits = compare_with-Leaves field op_eq ts h
after_operator-Leaves fuel field ne ts h fits = compare_with-Leaves field op_ne ts h
after_operator-Leaves fuel field gt ts h fits = compare_with-Leaves field op_gt ts h
after_operator-Leaves fuel field gte ts h fits = compare_with-Leaves field op_gte ts h
after_operator-Leaves fuel field lt ts h fits = compare_with-Leaves field op_lt ts h
after_operator-Leaves fuel field lte ts h fits = compare_with-Leaves field op_lte ts h
after_operator-Leaves fuel field tilde ts h fits = compare_with-Leaves field op_contains ts h
after_operator-Leaves fuel field not_tilde ts h fits =
    compare_with-Leaves field op_not_contains ts h
after_operator-Leaves fuel field kw_in ts h fits =
    bind-Leaves (length ts) (length ts) (parse_value_list fuel ts) _
      (parse_value_list-Leaves fuel ts h fits) (λ values rest e l. (e, l))
after_operator-Leaves fuel field kw_not ts h fits =
    bind-Leaves (length ts) (length ts) (expect kw_in "`IN` after `NOT`" ts) _
      (expect-Leaves kw_in "`IN` after `NOT`" ts h refl)
      (λ _ r1 e1 l1.
        bind-Leaves (length r1) (length ts) (parse_value_list fuel r1) _
          (parse_value_list-Leaves fuel r1 e1 (omega arith)) (λ values rest e l. (e, omega arith)))
after_operator-Leaves fuel field kw_is ts h fits =
    eat-Leaves kw_not (length ts) ts _ h refl
      (λ ends shorter.
        bind-Leaves (length (step_over ts)) (length ts)
          (expect kw_empty "`EMPTY` after `IS`" (step_over ts)) _
          (expect-Leaves kw_empty "`EMPTY` after `IS`" (step_over ts) ends refl)
          (λ _ rest e l. (e, omega arith)))
      (bind-Leaves (length ts) (length ts) (expect kw_empty "`EMPTY` after `IS`" ts) _
        (expect-Leaves kw_empty "`EMPTY` after `IS`" ts h refl) (λ _ rest e l. (e, l)))
after_operator-Leaves fuel field _ ts h fits = tt

pub parse_comparison-Leaves :
    (fuel : ℕ) (ts : Tokens)
    → EndsWithEof ts
    → length ts < fuel
    → Leaves (length ts) (parse_comparison fuel ts)
unfolding parse_comparison
parse_comparison-Leaves fuel ts h fits =
    bind-Leaves (length ts) (length ts) (expect_ident ts) _ (expect_ident-Leaves ts h)
      (λ field r1 e1 l1.
        let after = step_over-le r1 e1 in
        rw (advance_lem r1, Leaves)
          (weaken (length (step_over r1)) (length ts)
            (after_operator fuel field (peek r1).kind (step_over r1)) (omega arith)
            (after_operator-Leaves fuel field (peek r1).kind (step_over r1) after.0 (omega arith))))
