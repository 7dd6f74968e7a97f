-- ===== src/Query/Jql/Printer.antt =====
-- Queries as the tokens that they are read from: every part of a query in parentheses. The grammar is
-- that of the comments in go/query/jql_parser.go.
pub mod Values
pub mod Steps
pub mod Groups
pub mod Reads
pub mod Roundtrip
use metap.Prelude.{ℕ, zero, suc, ◌+◌, Bool, true, false, List, [], ◌∷◌, String, length}
use metap.Query.Jql.Syntax.{
  JqlTokenKind, ident, text_literal, left_paren, right_paren, comma, eq, ne, gt, gte, lt, lte,
  tilde, not_tilde, kw_and, kw_or, kw_not, kw_in, kw_is, kw_empty, kw_true, kw_false, JqlToken,
  token, Tokens, JqlCompareOp, op_eq, op_ne, op_gt, op_gte, op_lt, op_lte, op_contains,
  op_not_contains, JqlValue, str_value, bool_value, JqlExpr, compare, in_values, is_empty, conj,
  disj, negation, JqlExprs, nil, cons,
}

abbrev pub op_kind : JqlCompareOp → JqlTokenKind
op_kind op_eq = eq
op_kind op_ne = ne
op_kind op_gt = gt
op_kind op_gte = gte
op_kind op_lt = lt
op_kind op_lte = lte
op_kind op_contains = tilde
op_kind op_not_contains = not_tilde

abbrev pub value_token : JqlValue → JqlToken
value_token (str_value s) = record { kind = text_literal; text = s }
value_token (bool_value true) = token kw_true
value_token (bool_value false) = token kw_false

abbrev pub name_token : String → JqlToken
name_token field = record { kind = ident; text = field }

-- The values behind the first one, and what follows.
abbrev pub print_values : List JqlValue → Tokens → Tokens
print_values [] ts = ts
print_values (v ∷ vs) ts = token comma ∷ value_token v ∷ print_values vs ts

abbrev pub print_list : List JqlValue → Tokens → Tokens
print_list [] ts = ts
print_list (v ∷ vs) ts = value_token v ∷ print_values vs ts

abbrev pub print_in : Bool → Tokens → Tokens
print_in true ts = token kw_not ∷ token kw_in ∷ ts
print_in false ts = token kw_in ∷ ts

abbrev pub print_empty : Bool → Tokens → Tokens
print_empty true ts = token kw_not ∷ token kw_empty ∷ ts
print_empty false ts = token kw_empty ∷ ts

-- The tokens of a query, and those that follow it.
unfoldable mutual
  pub print : JqlExpr → Tokens → Tokens
  print (compare field op v) ts = name_token field ∷ token (op_kind op) ∷ value_token v ∷ ts
  print (in_values field negate vs) ts =
      name_token field ∷ print_in negate (token left_paren ∷ print_list vs (token right_paren ∷ ts))
  print (is_empty field negate) ts = name_token field ∷ token kw_is ∷ print_empty negate ts
  print (conj es) ts = token left_paren ∷ print_parts kw_and es (token right_paren ∷ ts)
  print (disj es) ts = token left_paren ∷ print_parts kw_or es (token right_paren ∷ ts)
  print (negation e) ts = token left_paren ∷ token kw_not ∷ print e (token right_paren ∷ ts)

  pub print_parts : JqlTokenKind → JqlExprs → Tokens → Tokens
  print_parts k nil ts = ts
  print_parts k (cons e es) ts = print e (print_tail k es ts)

  pub print_tail : JqlTokenKind → JqlExprs → Tokens → Tokens
  print_tail k nil ts = ts
  print_tail k (cons e es) ts = token k ∷ print e (print_tail k es ts)

-- What the parser can yield: AND and OR have two parts at least, IN has a value.
abbrev pub HasTwo : JqlExprs → Type 0
HasTwo nil = ⊥
HasTwo (cons e nil) = ⊥
HasTwo (cons e (cons f es)) = Unit {0}

abbrev pub HasOne : List JqlValue → Type 0
HasOne [] = ⊥
HasOne (v ∷ vs) = Unit {0}

unfoldable mutual
  pub IsProper : JqlExpr → Type 0
  IsProper (compare field op v) = Unit {0}
  IsProper (in_values field negate vs) = HasOne vs
  IsProper (is_empty field negate) = Unit {0}
  IsProper (conj es) = HasTwo es × AreProper es
  IsProper (disj es) = HasTwo es × AreProper es
  IsProper (negation e) = IsProper e

  pub AreProper : JqlExprs → Type 0
  AreProper nil = Unit {0}
  AreProper (cons e es) = IsProper e × AreProper es

-- The calls that reading the tokens back takes at most.
unfoldable mutual
  pub cost : JqlExpr → ℕ
  cost (compare field op v) = 2
  cost (in_values field negate vs) = 3 + length vs
  cost (is_empty field negate) = 2
  cost (conj es) = 6 + cost_each es
  cost (disj es) = 6 + cost_each es
  cost (negation e) = 6 + cost e

  pub cost_each : JqlExprs → ℕ
  cost_each nil = 1
  cost_each (cons e es) = 5 + cost e + cost_each es
