-- ===== src/Query/Jql/Printer/Reads.antt =====
-- parsePrimary of go/query/jql_parser.go on printed queries.
use metap.Prelude.{ℕ, suc, ◌-◌, ◌≤◌, ◌<◌, Bool, List, [], ◌∷◌, String, ◌≡◌, refl, ◌∙◌, arith}
use metap.Query.Jql.Syntax.{
  ok, JqlTokenKind, right_paren, kw_and, kw_or, JqlToken, token, Tokens, JqlCompareOp, JqlValue,
  JqlExpr, compare, in_values, is_empty, conj, disj, negation, JqlExprs, nil, cons,
}
use metap.Query.Jql.Parser.{snoc, more_or, parse_and, more_and, parse_primary}
use metap.Query.Jql.Printer.{print, print_tail, IsProper, AreProper, cost, cost_each}
use metap.Query.Jql.Printer.Steps.{
  and_stops, or_stops, and_reads, comparison_reads, in_reads, empty_reads, atom_reads,
}
use metap.Query.Jql.Printer.Groups.{
  negation_reads, app, app-nil, app-snoc, more_and_reads, more_or_reads, conj_reads, disj_reads,
}

cost-pos : (e : JqlExpr) → 0 < cost e
unfolding cost
cost-pos (compare field op v) = omega arith
cost-pos (in_values field negate vs) = omega arith
cost-pos _ = omega arith

cost_each-pos : (es : JqlExprs) → 0 < cost_each es
unfolding cost
cost_each-pos nil = omega arith
cost_each-pos (cons e es) = omega arith

-- A query is read with enough fuel, whatever token follows.
abbrev Reads : JqlExpr → Type 0
Reads e =
    (n : ℕ) (u : JqlToken) (ts : Tokens)
    → IsProper e
    → cost e ≤ n
    → parse_primary n (print e (u ∷ ts)) ≡ ok (e, u ∷ ts)

-- The parts of a conjunction and of a disjunction behind the first one, up to the parenthesis.
abbrev ReadsAnd : JqlExprs → Type 0
ReadsAnd es =
    (acc : JqlExprs) (n : ℕ) (ts : Tokens)
    → AreProper es
    → cost_each es ≤ n
    → more_and n acc (print_tail kw_and es (token right_paren ∷ ts))
      ≡ ok (app acc es, token right_paren ∷ ts)

abbrev ReadsOr : JqlExprs → Type 0
ReadsOr es =
    (acc : JqlExprs) (n : ℕ) (ts : Tokens)
    → AreProper es
    → cost_each es ≤ n
    → more_or n acc (print_tail kw_or es (token right_paren ∷ ts))
      ≡ ok (app acc es, token right_paren ∷ ts)

before_tail :
    (k : JqlTokenKind) (e : JqlExpr) (es : JqlExprs) (n : ℕ) (ts : Tokens)
    → Reads e
    → IsProper e
    → cost e ≤ n
    → parse_primary n (print e (print_tail k es (token right_paren ∷ ts)))
      ≡ ok (e, print_tail k es (token right_paren ∷ ts))
unfolding print
before_tail k e nil n ts reads proper h = reads n (token right_paren) ts proper h
before_tail k e (cons f es) n ts reads proper h =
    reads n (token k) (print f (print_tail k es (token right_paren ∷ ts))) proper h

and_before_tail :
    (e : JqlExpr) (es : JqlExprs) (n : ℕ) (ts : Tokens)
    → Reads e
    → IsProper e
    → cost e ≤ n
    → parse_and (suc (suc n)) (print e (print_tail kw_or es (token right_paren ∷ ts)))
      ≡ ok (e, print_tail kw_or es (token right_paren ∷ ts))
unfolding print
and_before_tail e nil n ts reads proper h =
    and_reads n e (token right_paren) ts refl (reads n (token right_paren) ts proper h)
and_before_tail e (cons f es) n ts reads proper h =
    let rest = print f (print_tail kw_or es (token right_paren ∷ ts)) in
    and_reads n e (token kw_or) rest refl (reads n (token kw_or) rest proper h)

and_nil : ReadsAnd nil
unfolding print cost
and_nil acc n ts proper h =
    let e : n ≡ suc (n - 1) = omega arith in
    rw e (and_stops (n - 1) acc (token right_paren) ts refl ∙ rw (app-nil acc) refl)

or_nil : ReadsOr nil
unfolding print cost
or_nil acc n ts proper h =
    let e : n ≡ suc (n - 1) = omega arith in
    rw e (or_stops (n - 1) acc (token right_paren) ts refl ∙ rw (app-nil acc) refl)

and_cons : (e : JqlExpr) (es : JqlExprs) → Reads e → ReadsAnd es → ReadsAnd (cons e es)
unfolding print cost IsProper
and_cons e es reads others acc n ts proper h =
    let m = n - 2 in
    let split : n ≡ suc (suc m) = omega arith in
    let tail = print_tail kw_and es (token right_paren ∷ ts) in
    rw split (
      more_and_reads m e acc tail (before_tail kw_and e es m ts reads proper.0 (omega arith))
      ∙ others (snoc acc e) (suc m) ts proper.1 (omega arith)
      ∙ rw (app-snoc acc e es) refl)

or_cons : (e : JqlExpr) (es : JqlExprs) → Reads e → ReadsOr es → ReadsOr (cons e es)
unfolding print cost IsProper
or_cons e es reads others acc n ts proper h =
    let m = n - 3 in
    let split : n ≡ suc (suc (suc m)) = omega arith in
    let tail = print_tail kw_or es (token right_paren ∷ ts) in
    rw split (
      more_or_reads m e acc tail (and_before_tail e es m ts reads proper.0 (omega arith))
      ∙ others (snoc acc e) (suc (suc m)) ts proper.1 (omega arith)
      ∙ rw (app-snoc acc e es) refl)

compare_Reads : (field : String) (op : JqlCompareOp) (v : JqlValue) → Reads (compare field op v)
unfolding print cost
compare_Reads field op v n u ts proper h =
    let e : n ≡ suc (n - 1) = omega arith in
    rw e (
      atom_reads (n - 1) field _ (u ∷ ts) (compare field op v)
        (comparison_reads (n - 1) field op v u ts))

empty_Reads : (field : String) (negate : Bool) → Reads (is_empty field negate)
unfolding print cost
empty_Reads field negate n u ts proper h =
    let e : n ≡ suc (n - 1) = omega arith in
    rw e (
      atom_reads (n - 1) field _ (u ∷ ts) (is_empty field negate)
        (empty_reads (n - 1) field negate u ts))

in_Reads : (field : String) (negate : Bool) (vs : List JqlValue) → Reads (in_values field negate vs)
unfolding print cost IsProper
in_Reads field negate [] n u ts proper h = absurd proper
in_Reads field negate (v ∷ vs) n u ts proper h =
    let e : n ≡ suc (n - 1) = omega arith in
    rw e (
      atom_reads (n - 1) field _ (u ∷ ts) (in_values field negate (v ∷ vs))
        (in_reads (n - 1) field negate v vs u ts (omega arith)))

negation_Reads : (e : JqlExpr) → Reads e → Reads (negation e)
unfolding print cost IsProper
negation_Reads e reads n u ts proper h =
    let m = n - 5 in
    let split : n ≡ suc (suc (suc (suc (suc m)))) = omega arith in
    rw split (negation_reads m e u ts (reads m (token right_paren) (u ∷ ts) proper (omega arith)))

conj_Reads :
    (e f : JqlExpr) (es : JqlExprs)
    → Reads e
    → ReadsAnd (cons f es)
    → Reads (conj (cons e (cons f es)))
unfolding print cost IsProper app
conj_Reads e f es reads others n u ts proper h =
    let m = n - 4 in
    let split : n ≡ suc (suc (suc (suc m))) = omega arith in
    rw split (
      conj_reads m e f es (print_tail kw_and (cons f es) (token right_paren ∷ u ∷ ts)) u ts
        (before_tail kw_and e (cons f es) m (u ∷ ts) reads proper.1.0 (omega arith))
        (others (cons e nil) (suc m) (u ∷ ts) proper.1.1 (omega arith)))

disj_Reads :
    (e f : JqlExpr) (es : JqlExprs)
    → Reads e
    → ReadsOr (cons f es)
    → Reads (disj (cons e (cons f es)))
unfolding print cost IsProper app
disj_Reads e f es reads others n u ts proper h =
    let m = n - 4 in
    let split : n ≡ suc (suc (suc (suc m))) = omega arith in
    rw split (
      disj_reads m e f es (print_tail kw_or (cons f es) (token right_paren ∷ u ∷ ts)) u ts
        (and_before_tail e (cons f es) m (u ∷ ts) reads proper.1.0 (omega arith))
        (others (cons e nil) (suc (suc m)) (u ∷ ts) proper.1.1 (omega arith)))

mutual
  unfolding IsProper

  pub all_Reads : (e : JqlExpr) → Reads e
  all_Reads (compare field op v) n u ts proper h = compare_Reads field op v n u ts proper h
  all_Reads (in_values field negate vs) n u ts proper h = in_Reads field negate vs n u ts proper h
  all_Reads (is_empty field negate) n u ts proper h = empty_Reads field negate n u ts proper h
  all_Reads (negation e) n u ts proper h = negation_Reads e (all_Reads e) n u ts proper h
  all_Reads (conj nil) n u ts proper h = absurd proper.0
  all_Reads (conj (cons e nil)) n u ts proper h = absurd proper.0
  all_Reads (conj (cons e (cons f es))) n u ts proper h =
      conj_Reads e f es (all_Reads e) (all_ReadsAnd (cons f es)) n u ts proper h
  all_Reads (disj nil) n u ts proper h = absurd proper.0
  all_Reads (disj (cons e nil)) n u ts proper h = absurd proper.0
  all_Reads (disj (cons e (cons f es))) n u ts proper h =
      disj_Reads e f es (all_Reads e) (all_ReadsOr (cons f es)) n u ts proper h

  all_ReadsAnd : (es : JqlExprs) → ReadsAnd es
  all_ReadsAnd nil acc n ts proper h = and_nil acc n ts proper h
  all_ReadsAnd (cons e es) acc n ts proper h =
      and_cons e es (all_Reads e) (all_ReadsAnd es) acc n ts proper h

  all_ReadsOr : (es : JqlExprs) → ReadsOr es
  all_ReadsOr nil acc n ts proper h = or_nil acc n ts proper h
  all_ReadsOr (cons e es) acc n ts proper h =
      or_cons e es (all_Reads e) (all_ReadsOr es) acc n ts proper h
