-- ===== src/Query/Jql/Printer/Values.antt =====
-- The parser of go/query/jql_parser.go on printed values: single tokens, and the lists of IN.
use mathlib.Core.List.{append-nil, append_assoc}
use metap.Prelude.{
  ℕ, zero, suc, ◌<◌, true, false, List, [], ◌∷◌, ◌++◌, ◌≡◌, refl, ap, ◌∙◌, length, arith,
  if◌then◌else◌,
}
use metap.Query.Jql.Syntax.{
  Jql, ok, invalid, out_of_fuel, JqlTokenKind, left_paren, right_paren, comma, kw_not, same_kind,
  JqlToken, token, Tokens, JqlValue, str_value, bool_value, JqlExpr, compare, in_values, JqlExprs,
  nil, cons,
}
use metap.Query.Jql.Parser.{
  Parser, ◌>>=◌, pure, step_over, eat, parse_value, more_values, parse_value_list,
}
use metap.Query.Jql.Printer.{print, print_tail, print_values, print_list, value_token}

-- A step that has a result goes on with it.
pub bind_ok {ℓ κ} :
    {A : Type ℓ} {B : Type κ} (p : Parser A) (f : A → Parser B) (ts : Tokens) {a : A}
    {rest : Tokens} {r : Jql (B × Tokens)}
    → p ts ≡ ok (a, rest)
    → f a rest ≡ r
    → (p >>= f) ts ≡ r
bind_ok {A} p f ts e h =
    ap
      (λ (x : Jql (A × Tokens)). elim x [
        | ok (a, rest) ↦ f a rest
        | invalid message ↦ invalid message
        | out_of_fuel ↦ out_of_fuel
      ])
      e
    ∙ h

pub eat_miss :
    (k : JqlTokenKind) (t : JqlToken) (ts : Tokens)
    → same_kind t.kind k ≡ false
    → eat k (t ∷ ts) ≡ ok (false, t ∷ ts)
unfolding eat
eat_miss k t ts h = rw h refl

pub eat_hit :
    (k : JqlTokenKind) (t u : JqlToken) (ts : Tokens)
    → same_kind t.kind k ≡ true
    → eat k (t ∷ u ∷ ts) ≡ ok (true, u ∷ ts)
unfolding eat
eat_hit k t u ts h = rw h refl

-- What stands behind a token that is stepped over.
pub step_over-print :
    (t : JqlToken) (e : JqlExpr) (ts : Tokens) → step_over (t ∷ print e ts) ≡ print e ts
unfolding print
step_over-print t (in_values field true vs) ts = refl
step_over-print t (in_values field false vs) ts = refl
step_over-print t _ ts = refl

-- A printed query begins neither with NOT nor with ORDER nor with the end.
pub eat_not-print : (e : JqlExpr) (ts : Tokens) → eat kw_not (print e ts) ≡ ok (false, print e ts)
unfolding print eat
eat_not-print (compare field op v) ts = refl
eat_not-print _ ts = refl

step_over-tail :
    (t u : JqlToken) (k : JqlTokenKind) (es : JqlExprs) (ts : Tokens)
    → step_over (t ∷ print_tail k es (u ∷ ts)) ≡ print_tail k es (u ∷ ts)
unfolding print
step_over-tail t u k nil ts = refl
step_over-tail t u k (cons e es) ts = refl

-- A value is read before a token, which the values behind it begin with, or a closing parenthesis.
pub value_reads :
    (v : JqlValue) (u : JqlToken) (ts : Tokens)
    → parse_value (value_token v ∷ u ∷ ts) ≡ ok (v, u ∷ ts)
unfolding parse_value
value_reads (str_value s) u ts = refl
value_reads (bool_value true) u ts = refl
value_reads (bool_value false) u ts = refl

value_reads_list :
    (v : JqlValue) (vs : List JqlValue) (u : JqlToken) (ts : Tokens)
    → parse_value (value_token v ∷ print_values vs (u ∷ ts)) ≡ ok (v, print_values vs (u ∷ ts))
value_reads_list v [] u ts = value_reads v u ts
value_reads_list v (w ∷ ws) u ts =
    value_reads v (token comma) (value_token w ∷ print_values ws (u ∷ ts))

more_values_step :
    (n : ℕ) (acc : List JqlValue) (ts : Tokens)
    → more_values (suc n) acc ts
      ≡ (eat comma >>= λ another.
            if another then (parse_value >>= λ v. more_values n (acc ++ v ∷ [])) else pure acc)
          ts
unfolding more_values
more_values_step n acc ts = refl

more_values-print :
    (n : ℕ) (acc vs : List JqlValue) (ts : Tokens)
    → length vs < n
    → more_values n acc (print_values vs (token right_paren ∷ ts))
      ≡ ok (acc ++ vs, token right_paren ∷ ts)
more_values-print zero acc vs ts h = absurd (omega arith)
more_values-print (suc n) acc [] ts h =
    more_values_step n acc (token right_paren ∷ ts)
    ∙ bind_ok (eat comma) _ (token right_paren ∷ ts) (eat_miss comma (token right_paren) ts refl)
        (rw append-nil refl)
more_values-print (suc n) acc (v ∷ vs) ts h =
    more_values_step n acc (print_values (v ∷ vs) (token right_paren ∷ ts))
    ∙ bind_ok (eat comma) _ (print_values (v ∷ vs) (token right_paren ∷ ts))
        (eat_hit comma (token comma) (value_token v) (print_values vs (token right_paren ∷ ts))
          refl)
        (bind_ok parse_value _ (value_token v ∷ print_values vs (token right_paren ∷ ts))
          (value_reads_list v vs (token right_paren) ts)
          (more_values-print n (acc ++ v ∷ []) vs ts (omega arith)
            ∙ rw (append_assoc acc (v ∷ []) vs) refl))

pub list_reads :
    (n : ℕ) (v : JqlValue) (vs : List JqlValue) (u : JqlToken) (ts : Tokens)
    → length vs < n
    → parse_value_list n (token left_paren ∷ print_list (v ∷ vs) (token right_paren ∷ u ∷ ts))
      ≡ ok (v ∷ vs, u ∷ ts)
unfolding parse_value_list
list_reads n v vs u ts h =
    bind_ok parse_value _ (value_token v ∷ print_values vs (token right_paren ∷ u ∷ ts))
      (value_reads_list v vs (token right_paren) (u ∷ ts))
      (bind_ok (more_values n (v ∷ [])) _ (print_values vs (token right_paren ∷ u ∷ ts))
        (more_values-print n (v ∷ []) vs (u ∷ ts) h) refl)
