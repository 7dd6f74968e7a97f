-- ===== src/Query/Jql/Parser.antt =====
-- go/query/jql_parser.go. The tokens from the parser's position on are its state; as in the source,
-- the position never moves behind the last token. Each call of a recursive function costs one unit of
-- fuel; `Query.Jql.Parser.Total` shows how much is enough.
pub mod Leaves
pub mod Total
use Prim.Native.String.{◌++◌ as append}
use metap.Prelude.{
  ℕ, zero, suc, ◌+◌, ◌*◌, Bool, true, false, not, Option, none, some, List, [], ◌∷◌, ◌++◌, String,
  ◌&&◌, ◌||◌, length, if◌then◌else◌,
}
use metap.Query.Jql.Syntax.{
  Jql, ok, invalid, out_of_fuel, JqlTokenKind, ident, text_literal, number, left_paren, right_paren,
  comma, eq, ne, gt, gte, lt, lte, tilde, not_tilde, kw_and, kw_or, kw_not, kw_in, kw_is, kw_empty,
  kw_order, kw_by, kw_asc, kw_desc, kw_true, kw_false, eof, same_kind, JqlToken, token, Tokens,
  JqlCompareOp, op_eq, op_ne, op_gt, op_gte, op_lt, op_lte, op_contains, op_not_contains, JqlValue,
  str_value, bool_value, JqlExpr, compare, in_values, is_empty, conj, disj, negation, JqlExprs, nil,
  cons, JqlOrder, ParsedJql,
}

abbrev pub Parser {ℓ} : Type ℓ → Type ℓ
Parser A = Tokens → Jql (A × Tokens)

infixl 5 ◌>>=◌ ◌>>◌
abbrev pub ◌>>=◌ {ℓ κ} : {A : Type ℓ} {B : Type κ} → Parser A → (A → Parser B) → Parser B
p >>= f = λ ts. elim (p ts) [
  | ok (a, rest) ↦ f a rest
  | invalid message ↦ invalid message
  | out_of_fuel ↦ out_of_fuel
]

abbrev pub ◌>>◌ {ℓ} : {B : Type ℓ} → Parser (Unit {0}) → Parser B → Parser B
p >> q = p >>= λ _. q

abbrev pub pure {ℓ} : {A : Type ℓ} → A → Parser A
pure a ts = ok (a, ts)

abbrev pub refuse {ℓ} : {A : Type ℓ} → String → Parser A
refuse message ts = invalid message

-- p.peek(); the source's slice of tokens is never empty.
abbrev pub peek : Tokens → JqlToken
peek [] = token eof
peek (t ∷ ts) = t

-- p.advance()
unfoldable pub advance : Parser JqlToken
advance [] = ok (token eof, [])
advance (t ∷ []) = ok (t, t ∷ [])
advance (t ∷ u ∷ us) = ok (t, u ∷ us)

abbrev pub step_over : Tokens → Tokens
step_over [] = []
step_over (t ∷ []) = t ∷ []
step_over (t ∷ u ∷ us) = u ∷ us

-- p.eat(kind)
unfoldable pub eat : JqlTokenKind → Parser Bool
eat k ts = if same_kind (peek ts).kind k then ok (true, step_over ts) else ok (false, ts)

unfoldable pub expect : JqlTokenKind → String → Parser (Unit {0})
unfolding eat
expect k what = do found ← eat k; if found then pure tt else refuse (append "Expected " what)

abbrev ident_of : JqlToken → Parser String
ident_of t = if same_kind t.kind ident then pure t.text else refuse "Expected a field name"

unfoldable pub expect_ident : Parser String
unfolding advance
expect_ident = do t ← advance; ident_of t

abbrev value_of : JqlTokenKind → String → Parser JqlValue
value_of text_literal text = pure (str_value text)
value_of number text = pure (str_value text)
value_of kw_true text = pure (bool_value true)
value_of kw_false text = pure (bool_value false)
value_of _ text = refuse "Expected a value (string, number, true, or false)"

unfoldable pub parse_value : Parser JqlValue
unfolding advance
parse_value = do t ← advance; value_of t.kind t.text

-- The loop over the values behind commas.
unfoldable pub more_values : ℕ → List JqlValue → Parser (List JqlValue)
unfolding eat parse_value
more_values zero values ts = out_of_fuel
more_values (suc fuel) values ts =
    (do
      another ← eat comma
      let next = (do v ← parse_value; more_values fuel (values ++ v ∷ []))
      if another then next else pure values)
      ts

unfoldable pub parse_value_list : ℕ → Parser (List JqlValue)
unfolding expect parse_value more_values
parse_value_list fuel = do
  expect left_paren "`(` after `IN`"
  first ← parse_value
  values ← more_values fuel (first ∷ [])
  expect right_paren "`)` to close the value list"
  pure values

abbrev pub compare_with : String → JqlCompareOp → Parser JqlExpr
compare_with field op = do v ← parse_value; pure (compare field op v)

-- The part of a comparison behind its operator.
unfoldable pub after_operator : ℕ → String → JqlTokenKind → Parser JqlExpr
unfolding expect parse_value_list eat
after_operator fuel field eq = compare_with field op_eq
after_operator fuel field ne = compare_with field op_ne
after_operator fuel field gt = compare_with field op_gt
after_operator fuel field gte = compare_with field op_gte
after_operator fuel field lt = compare_with field op_lt
after_operator fuel field lte = compare_with field op_lte
after_operator fuel field tilde = compare_with field op_contains
after_operator fuel field not_tilde = compare_with field op_not_contains
after_operator fuel field kw_in = do
  values ← parse_value_list fuel
  pure (in_values field false values)
after_operator fuel field kw_not = do
  expect kw_in "`IN` after `NOT`"
  values ← parse_value_list fuel
  pure (in_values field true values)
after_operator fuel field kw_is = do
  negate ← eat kw_not
  expect kw_empty "`EMPTY` after `IS`"
  pure (is_empty field negate)
after_operator fuel field _ =
    refuse (append "Expected an operator after field `" (append field "`"))

unfoldable pub parse_comparison : ℕ → Parser JqlExpr
unfolding expect_ident advance after_operator
parse_comparison fuel = do field ← expect_ident; t ← advance; after_operator fuel field t.kind

abbrev pub snoc : JqlExprs → JqlExpr → JqlExprs
snoc nil e = cons e nil
snoc (cons x xs) e = cons x (snoc xs e)

-- One part stands for itself.
abbrev pub join : (JqlExprs → JqlExpr) → JqlExprs → JqlExpr
join f (cons e nil) = e
join f es = f es

unfoldable mutual
  unfolding eat expect parse_comparison

  pub parse_or : ℕ → Parser JqlExpr
  parse_or zero ts = out_of_fuel
  parse_or (suc fuel) ts =
      (do first ← parse_and fuel; parts ← more_or fuel (cons first nil); pure (join disj parts)) ts

  pub more_or : ℕ → JqlExprs → Parser JqlExprs
  more_or zero parts ts = out_of_fuel
  more_or (suc fuel) parts ts =
      (do
        another ← eat kw_or
        let next = (do e ← parse_and fuel; more_or fuel (snoc parts e))
        if another then next else pure parts)
        ts

  pub parse_and : ℕ → Parser JqlExpr
  parse_and zero ts = out_of_fuel
  parse_and (suc fuel) ts =
      (do first ← parse_not fuel; parts ← more_and fuel (cons first nil); pure (join conj parts)) ts

  pub more_and : ℕ → JqlExprs → Parser JqlExprs
  more_and zero parts ts = out_of_fuel
  more_and (suc fuel) parts ts =
      (do
        another ← eat kw_and
        let next = (do e ← parse_not fuel; more_and fuel (snoc parts e))
        if another then next else pure parts)
        ts

  pub parse_not : ℕ → Parser JqlExpr
  parse_not zero ts = out_of_fuel
  parse_not (suc fuel) ts =
      (do
        negated ← eat kw_not
        let inner = (do e ← parse_not fuel; pure (negation e))
        let plain = parse_primary fuel
        if negated then inner else plain)
        ts

  pub parse_primary : ℕ → Parser JqlExpr
  parse_primary zero ts = out_of_fuel
  parse_primary (suc fuel) ts =
      (do
        open_paren ← eat left_paren
        let group = (do e ← parse_or fuel; expect right_paren "`)`"; pure e)
        if open_paren then group else parse_comparison fuel)
        ts

-- DESC, ASC or neither behind the field.
unfoldable pub parse_direction : String → Parser (Option JqlOrder)
unfolding eat
parse_direction field = do
  descending ← eat kw_desc
  let ascending = (do _ ← eat kw_asc; pure (some (record { field = field; descending = false })))
  if descending then pure (some (record { field = field; descending = true })) else ascending

unfoldable pub parse_order : Parser (Option JqlOrder)
unfolding eat expect expect_ident parse_direction
parse_order = do
  ordered ← eat kw_order
  let order = (do expect kw_by "`BY` after `ORDER`"; field ← expect_ident; parse_direction field)
  if ordered then order else pure none

-- Neither an order nor the end of the tokens stands here.
abbrev pub starts_filter : Tokens → Bool
starts_filter ts = not (same_kind (peek ts).kind kw_order) && not (same_kind (peek ts).kind eof)

unfoldable pub parse_filter : ℕ → Parser (Option JqlExpr)
unfolding parse_or
parse_filter fuel ts =
    if starts_filter ts then (do e ← parse_or fuel; pure (some e)) ts else ok (none, ts)

-- The end of the tokens must be reached.
abbrev pub finish : Option JqlExpr → Option JqlOrder → Tokens → Jql ParsedJql
finish expr order ts =
    if same_kind (peek ts).kind eof
    then ok (record { expr = expr; order_by = order })
    else invalid "Unexpected trailing input"

-- Six calls for each token are enough, and six more.
abbrev pub enough : Tokens → ℕ
enough ts = 6 * length ts + 6

abbrev pub finished : Jql ((Option JqlExpr × Option JqlOrder) × Tokens) → Jql ParsedJql
finished (ok ((expr, order), rest)) = finish expr order rest
finished (invalid message) = invalid message
finished out_of_fuel = out_of_fuel

abbrev pub filter_and_order : ℕ → Parser (Option JqlExpr × Option JqlOrder)
filter_and_order fuel = do expr ← parse_filter fuel; order ← parse_order; pure (expr, order)

unfoldable pub parse_query : Tokens → Jql ParsedJql
unfolding parse_filter parse_order
parse_query ts = finished (filter_and_order (enough ts) ts)
