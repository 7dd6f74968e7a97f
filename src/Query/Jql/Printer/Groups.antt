-- ===== src/Query/Jql/Printer/Groups.antt =====
-- The parser of go/query/jql_parser.go on a printed query in parentheses.
use metap.Prelude.{ℕ, suc, false, [], ◌∷◌, ◌≡◌, refl, ap, ◌∙◌}
use metap.Query.Jql.Syntax.{
  ok, JqlTokenKind, left_paren, right_paren, kw_and, kw_or, kw_not, same_kind, JqlToken, token,
  Tokens, JqlExpr, conj, disj, negation, JqlExprs, nil, cons,
}
use metap.Query.Jql.Parser.{eat, snoc, more_or, parse_and, more_and, parse_not, parse_primary}
use metap.Query.Jql.Printer.{print, print_tail}
use metap.Query.Jql.Printer.Values.{bind_ok, eat_hit}
use metap.Query.Jql.Printer.Steps.{
  not_step, and_step, or_step, more_and_step, more_or_step, not_reads, and_stops, or_stops,
  eat-print, group_reads,
}

pub negation_reads :
    (m : ℕ) (e : JqlExpr) (u : JqlToken) (ts : Tokens)
    → parse_primary m (print e (token right_paren ∷ u ∷ ts)) ≡ ok (e, token right_paren ∷ u ∷ ts)
    → parse_primary
        (suc (suc (suc (suc (suc m)))))
        (token left_paren ∷ token kw_not ∷ print e (token right_paren ∷ u ∷ ts))
      ≡ ok (negation e, u ∷ ts)
negation_reads m e u ts h =
    let rest = token right_paren ∷ u ∷ ts in
    let inner = token kw_not ∷ print e rest in
    let negated =
      not_step (suc m) inner
      ∙ bind_ok (eat kw_not) _ inner (eat-print kw_not (token kw_not) e rest refl)
          (bind_ok (parse_not (suc m)) _ (print e rest) (not_reads m e rest h) refl) in
    let conjunction =
      and_step (suc (suc m)) inner
      ∙ bind_ok (parse_not (suc (suc m))) _ inner negated (
          bind_ok (more_and (suc (suc m)) (cons (negation e) nil)) _ rest
            (and_stops (suc m) (cons (negation e) nil) (token right_paren) (u ∷ ts) refl) refl) in
    group_reads (suc (suc (suc (suc m)))) (negation e) inner u ts
      (eat_hit left_paren (token left_paren) (token kw_not) (print e rest) refl)
      (or_step (suc (suc (suc m))) inner
        ∙ bind_ok (parse_and (suc (suc (suc m)))) _ inner conjunction (
            bind_ok (more_or (suc (suc (suc m))) (cons (negation e) nil)) _ rest
              (or_stops (suc (suc m)) (cons (negation e) nil) (token right_paren) (u ∷ ts) refl)
              refl))

-- The parts of both lists.
unfoldable pub app : JqlExprs → JqlExprs → JqlExprs
app nil ys = ys
app (cons x xs) ys = cons x (app xs ys)

pub app-nil : (xs : JqlExprs) → app xs nil ≡ xs
unfolding app
app-nil nil = refl
app-nil (cons x xs) = ap (cons x) (app-nil xs)

pub app-snoc :
    (xs : JqlExprs) (e : JqlExpr) (ys : JqlExprs) → app (snoc xs e) ys ≡ app xs (cons e ys)
unfolding app
app-snoc nil e ys = refl
app-snoc (cons x xs) e ys = ap (cons x) (app-snoc xs e ys)

-- The tokens go on, and not with a token of this kind.
abbrev GoesOn : JqlTokenKind → Tokens → Type 0
GoesOn k [] = ⊥
GoesOn k (t ∷ ts) = same_kind t.kind k ≡ false

at_token :
    (k : JqlTokenKind) (P : Tokens → Type 0) (rest : Tokens)
    → ((t : JqlToken) (ts : Tokens) → same_kind t.kind k ≡ false → P (t ∷ ts))
    → GoesOn k rest
    → P rest
at_token k P [] f h = absurd h
at_token k P (t ∷ ts) f h = f t ts h

tail-GoesOn :
    (es : JqlExprs) (ts : Tokens) → GoesOn kw_not (print_tail kw_and es (token right_paren ∷ ts))
unfolding print
tail-GoesOn nil ts = refl
tail-GoesOn (cons e es) ts = refl

or_tail-GoesOn :
    (es : JqlExprs) (ts : Tokens) → GoesOn kw_and (print_tail kw_or es (token right_paren ∷ ts))
unfolding print
or_tail-GoesOn nil ts = refl
or_tail-GoesOn (cons e es) ts = refl

-- A further part of a conjunction and of a disjunction.
pub more_and_reads :
    (m : ℕ) (e : JqlExpr) (acc : JqlExprs) (rest : Tokens)
    → parse_primary m (print e rest) ≡ ok (e, rest)
    → more_and (suc (suc m)) acc (token kw_and ∷ print e rest) ≡ more_and (suc m) (snoc acc e) rest
more_and_reads m e acc rest h =
    more_and_step (suc m) acc (token kw_and ∷ print e rest)
    ∙ bind_ok (eat kw_and) _ (token kw_and ∷ print e rest)
        (eat-print kw_and (token kw_and) e rest refl)
        (bind_ok (parse_not (suc m)) _ (print e rest) (not_reads m e rest h) refl)

pub more_or_reads :
    (m : ℕ) (e : JqlExpr) (acc : JqlExprs) (rest : Tokens)
    → parse_and (suc (suc m)) (print e rest) ≡ ok (e, rest)
    → more_or (suc (suc (suc m))) acc (token kw_or ∷ print e rest)
      ≡ more_or (suc (suc m)) (snoc acc e) rest
more_or_reads m e acc rest h =
    more_or_step (suc (suc m)) acc (token kw_or ∷ print e rest)
    ∙ bind_ok (eat kw_or) _ (token kw_or ∷ print e rest) (eat-print kw_or (token kw_or) e rest refl)
        (bind_ok (parse_and (suc (suc m))) _ (print e rest) h refl)

pub conj_reads :
    (m : ℕ) (e f : JqlExpr) (es : JqlExprs) (tail : Tokens) (u : JqlToken) (ts : Tokens)
    → parse_primary m (print e tail) ≡ ok (e, tail)
    → more_and (suc m) (cons e nil) tail ≡ ok (cons e (cons f es), token right_paren ∷ u ∷ ts)
    → parse_primary (suc (suc (suc (suc m)))) (token left_paren ∷ print e tail)
      ≡ ok (conj (cons e (cons f es)), u ∷ ts)
conj_reads m e f es tail u ts first others =
    let conjunction =
      and_step (suc m) (print e tail)
      ∙ bind_ok (parse_not (suc m)) _ (print e tail) (not_reads m e tail first)
          (bind_ok (more_and (suc m) (cons e nil)) _ tail others refl) in
    let whole = conj (cons e (cons f es)) in
    group_reads (suc (suc (suc m))) whole (print e tail) u ts
      (eat-print left_paren (token left_paren) e tail refl)
      (or_step (suc (suc m)) (print e tail)
        ∙ bind_ok (parse_and (suc (suc m))) _ (print e tail) conjunction (
            bind_ok (more_or (suc (suc m)) (cons whole nil)) _ (token right_paren ∷ u ∷ ts)
              (or_stops (suc m) (cons whole nil) (token right_paren) (u ∷ ts) refl) refl))

pub disj_reads :
    (m : ℕ) (e f : JqlExpr) (es : JqlExprs) (tail : Tokens) (u : JqlToken) (ts : Tokens)
    → parse_and (suc (suc m)) (print e tail) ≡ ok (e, tail)
    → more_or (suc (suc m)) (cons e nil) tail ≡ ok (cons e (cons f es), token right_paren ∷ u ∷ ts)
    → parse_primary (suc (suc (suc (suc m)))) (token left_paren ∷ print e tail)
      ≡ ok (disj (cons e (cons f es)), u ∷ ts)
disj_reads m e f es tail u ts first others =
    group_reads (suc (suc (suc m))) (disj (cons e (cons f es))) (print e tail) u ts
      (eat-print left_paren (token left_paren) e tail refl)
      (or_step (suc (suc m)) (print e tail)
        ∙ bind_ok (parse_and (suc (suc m))) _ (print e tail) first
            (bind_ok (more_or (suc (suc m)) (cons e nil)) _ tail others refl))
