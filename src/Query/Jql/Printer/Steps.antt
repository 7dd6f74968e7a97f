-- ===== src/Query/Jql/Printer/Steps.antt =====
-- One call of each recursive function of go/query/jql_parser.go on a printed query.
use metap.Prelude.{
  ℕ, suc, ◌<◌, Bool, true, false, List, ◌∷◌, String, ◌≡◌, refl, ap, ◌∙◌, length, if◌then◌else◌,
}
use metap.Query.Jql.Syntax.{
  ok, JqlTokenKind, left_paren, right_paren, kw_and, kw_or, kw_not, same_kind, JqlToken, token,
  Tokens, JqlCompareOp, op_eq, op_ne, op_gt, op_gte, op_lt, op_lte, op_contains, op_not_contains,
  JqlValue, JqlExpr, compare, in_values, is_empty, conj, disj, negation, JqlExprs, nil, cons,
}
use metap.Query.Jql.Parser.{
  ◌>>=◌, pure, eat, expect, parse_value, parse_value_list, parse_comparison, snoc, join, parse_or,
  more_or, parse_and, more_and, parse_not, parse_primary,
}
use metap.Query.Jql.Printer.{name_token, print, print_list, value_token}
use metap.Query.Jql.Printer.Values.{
  bind_ok, eat_miss, step_over-print, eat_not-print, value_reads, list_reads,
}

-- One call of each recursive function.
primary_step :
    (n : ℕ) (ts : Tokens)
    → parse_primary (suc n) ts
      ≡ (eat left_paren >>= λ open_paren.
            if open_paren
            then (parse_or n >>= λ e. expect right_paren "`)`" >>= λ _. pure e)
            else parse_comparison n)
          ts
unfolding parse_primary
primary_step n ts = refl

pub not_step :
    (n : ℕ) (ts : Tokens)
    → parse_not (suc n) ts
      ≡ (eat kw_not >>= λ negated.
            if negated then (parse_not n >>= λ e. pure (negation e)) else parse_primary n)
          ts
unfolding parse_not
not_step n ts = refl

pub and_step :
    (n : ℕ) (ts : Tokens)
    → parse_and (suc n) ts
      ≡ (parse_not n >>= λ first. more_and n (cons first nil) >>= λ parts. pure (join conj parts))
          ts
unfolding parse_and
and_step n ts = refl

pub or_step :
    (n : ℕ) (ts : Tokens)
    → parse_or (suc n) ts
      ≡ (parse_and n >>= λ first. more_or n (cons first nil) >>= λ parts. pure (join disj parts)) ts
unfolding parse_or
or_step n ts = refl

pub more_and_step :
    (n : ℕ) (parts : JqlExprs) (ts : Tokens)
    → more_and (suc n) parts ts
      ≡ (eat kw_and >>= λ another.
            if another then (parse_not n >>= λ e. more_and n (snoc parts e)) else pure parts)
          ts
unfolding more_and
more_and_step n parts ts = refl

pub more_or_step :
    (n : ℕ) (parts : JqlExprs) (ts : Tokens)
    → more_or (suc n) parts ts
      ≡ (eat kw_or >>= λ another.
            if another then (parse_and n >>= λ e. more_or n (snoc parts e)) else pure parts)
          ts
unfolding more_or
more_or_step n parts ts = refl

-- Reading one part of a query.
pub not_reads :
    (n : ℕ) (e : JqlExpr) (ts : Tokens)
    → parse_primary n (print e ts) ≡ ok (e, ts)
    → parse_not (suc n) (print e ts) ≡ ok (e, ts)
not_reads n e ts h =
    not_step n (print e ts) ∙ bind_ok (eat kw_not) _ (print e ts) (eat_not-print e ts) h

-- The loops stop at a token that is not theirs.
pub and_stops :
    (n : ℕ) (parts : JqlExprs) (t : JqlToken) (ts : Tokens)
    → same_kind t.kind kw_and ≡ false
    → more_and (suc n) parts (t ∷ ts) ≡ ok (parts, t ∷ ts)
and_stops n parts t ts h =
    more_and_step n parts (t ∷ ts) ∙ bind_ok (eat kw_and) _ (t ∷ ts) (eat_miss kw_and t ts h) refl

pub or_stops :
    (n : ℕ) (parts : JqlExprs) (t : JqlToken) (ts : Tokens)
    → same_kind t.kind kw_or ≡ false
    → more_or (suc n) parts (t ∷ ts) ≡ ok (parts, t ∷ ts)
or_stops n parts t ts h =
    more_or_step n parts (t ∷ ts) ∙ bind_ok (eat kw_or) _ (t ∷ ts) (eat_miss kw_or t ts h) refl

pub and_reads :
    (n : ℕ) (e : JqlExpr) (t : JqlToken) (ts : Tokens)
    → same_kind t.kind kw_and ≡ false
    → parse_primary n (print e (t ∷ ts)) ≡ ok (e, t ∷ ts)
    → parse_and (suc (suc n)) (print e (t ∷ ts)) ≡ ok (e, t ∷ ts)
and_reads n e t ts other h =
    and_step (suc n) (print e (t ∷ ts))
    ∙ bind_ok (parse_not (suc n)) _ (print e (t ∷ ts)) (not_reads n e (t ∷ ts) h) (
        bind_ok (more_and (suc n) (cons e nil)) _ (t ∷ ts) (and_stops n (cons e nil) t ts other)
          refl)

pub or_reads :
    (n : ℕ) (e : JqlExpr) (t : JqlToken) (ts : Tokens)
    → same_kind t.kind kw_and ≡ false
    → same_kind t.kind kw_or ≡ false
    → parse_primary n (print e (t ∷ ts)) ≡ ok (e, t ∷ ts)
    → parse_or (suc (suc (suc n))) (print e (t ∷ ts)) ≡ ok (e, t ∷ ts)
or_reads n e t ts no_and no_or h =
    or_step (suc (suc n)) (print e (t ∷ ts))
    ∙ bind_ok (parse_and (suc (suc n))) _ (print e (t ∷ ts)) (and_reads n e t ts no_and h) (
        bind_ok (more_or (suc (suc n)) (cons e nil)) _ (t ∷ ts)
          (or_stops (suc n) (cons e nil) t ts no_or) refl)

-- A comparison is read whatever the fuel of its value list is, if that is enough.
pub comparison_reads :
    (n : ℕ) (field : String) (op : JqlCompareOp) (v : JqlValue) (u : JqlToken) (ts : Tokens)
    → parse_comparison n (print (compare field op v) (u ∷ ts)) ≡ ok (compare field op v, u ∷ ts)
unfolding parse_comparison print
comparison_reads n field op_eq v u ts =
    bind_ok parse_value _ (value_token v ∷ u ∷ ts) (value_reads v u ts) refl
comparison_reads n field op_ne v u ts =
    bind_ok parse_value _ (value_token v ∷ u ∷ ts) (value_reads v u ts) refl
comparison_reads n field op_gt v u ts =
    bind_ok parse_value _ (value_token v ∷ u ∷ ts) (value_reads v u ts) refl
comparison_reads n field op_gte v u ts =
    bind_ok parse_value _ (value_token v ∷ u ∷ ts) (value_reads v u ts) refl
comparison_reads n field op_lt v u ts =
    bind_ok parse_value _ (value_token v ∷ u ∷ ts) (value_reads v u ts) refl
comparison_reads n field op_lte v u ts =
    bind_ok parse_value _ (value_token v ∷ u ∷ ts) (value_reads v u ts) refl
comparison_reads n field op_contains v u ts =
    bind_ok parse_value _ (value_token v ∷ u ∷ ts) (value_reads v u ts) refl
comparison_reads n field op_not_contains v u ts =
    bind_ok parse_value _ (value_token v ∷ u ∷ ts) (value_reads v u ts) refl

pub in_reads :
    (n : ℕ) (field : String) (negate : Bool) (v : JqlValue) (vs : List JqlValue) (u : JqlToken)
    (ts : Tokens)
    → length vs < n
    → parse_comparison n (print (in_values field negate (v ∷ vs)) (u ∷ ts))
      ≡ ok (in_values field negate (v ∷ vs), u ∷ ts)
unfolding parse_comparison print
in_reads n field true v vs u ts h =
    bind_ok (parse_value_list n) _
      (token left_paren ∷ print_list (v ∷ vs) (token right_paren ∷ u ∷ ts))
      (list_reads n v vs u ts h) refl
in_reads n field false v vs u ts h =
    bind_ok (parse_value_list n) _
      (token left_paren ∷ print_list (v ∷ vs) (token right_paren ∷ u ∷ ts))
      (list_reads n v vs u ts h) refl

pub empty_reads :
    (n : ℕ) (field : String) (negate : Bool) (u : JqlToken) (ts : Tokens)
    → parse_comparison n (print (is_empty field negate) (u ∷ ts))
      ≡ ok (is_empty field negate, u ∷ ts)
unfolding parse_comparison print
empty_reads n field true u ts = refl
empty_reads n field false u ts = refl

pub eat-print :
    (k : JqlTokenKind) (t : JqlToken) (e : JqlExpr) (ts : Tokens)
    → same_kind t.kind k ≡ true
    → eat k (t ∷ print e ts) ≡ ok (true, print e ts)
unfolding eat
eat-print k t e ts h = rw h (ap (λ rest. ok (true, rest)) (step_over-print t e ts))

-- A query without parentheses is read by the comparison.
pub atom_reads :
    (n : ℕ) (field : String) (ts rest : Tokens) (e : JqlExpr)
    → parse_comparison n (name_token field ∷ ts) ≡ ok (e, rest)
    → parse_primary (suc n) (name_token field ∷ ts) ≡ ok (e, rest)
atom_reads n field ts rest e h =
    primary_step n (name_token field ∷ ts)
    ∙ bind_ok (eat left_paren) _ (name_token field ∷ ts)
        (eat_miss left_paren (name_token field) ts refl) h

close_reads :
    (u : JqlToken) (ts : Tokens)
    → expect right_paren "`)`" (token right_paren ∷ u ∷ ts) ≡ ok (tt, u ∷ ts)
unfolding expect
close_reads u ts = refl

-- What is in parentheses is read by the whole grammar.
pub group_reads :
    (n : ℕ) (e : JqlExpr) (inner : Tokens) (u : JqlToken) (ts : Tokens)
    → eat left_paren (token left_paren ∷ inner) ≡ ok (true, inner)
    → parse_or n inner ≡ ok (e, token right_paren ∷ u ∷ ts)
    → parse_primary (suc n) (token left_paren ∷ inner) ≡ ok (e, u ∷ ts)
group_reads n e inner u ts opened h =
    primary_step n (token left_paren ∷ inner)
    ∙ bind_ok (eat left_paren) _ (token left_paren ∷ inner) opened (
        bind_ok (parse_or n) _ inner h (
          bind_ok (expect right_paren "`)`") _ (token right_paren ∷ u ∷ ts) (close_reads u ts)
            refl))
