-- ===== src/Query/Jql/Syntax.antt =====
-- go/query/jql_ast.go, and the tokens and the error of jql_lexer.go.
use metap.Prelude.{ℕ, Bool, Option, List, String, eqb}

-- A result, an InvalidJqlError with its message, or a recursion that was given too little fuel.
pub data Jql {ℓ} (A : Type ℓ) : Type ℓ where
  ok : A → Jql A
  invalid : String → Jql A
  out_of_fuel : Jql A

pub data JqlTokenKind : Type 0 where
  ident text_literal number left_paren right_paren comma eq ne gt gte lt lte tilde not_tilde :
      JqlTokenKind
  kw_and kw_or kw_not kw_in kw_is kw_empty kw_order kw_by kw_asc kw_desc kw_true kw_false :
      JqlTokenKind
  eof : JqlTokenKind

-- The number of the kind in the source's enumeration.
abbrev pub ordinal : JqlTokenKind → ℕ
ordinal ident = 0
ordinal text_literal = 1
ordinal number = 2
ordinal left_paren = 3
ordinal right_paren = 4
ordinal comma = 5
ordinal eq = 6
ordinal ne = 7
ordinal gt = 8
ordinal gte = 9
ordinal lt = 10
ordinal lte = 11
ordinal tilde = 12
ordinal not_tilde = 13
ordinal kw_and = 14
ordinal kw_or = 15
ordinal kw_not = 16
ordinal kw_in = 17
ordinal kw_is = 18
ordinal kw_empty = 19
ordinal kw_order = 20
ordinal kw_by = 21
ordinal kw_asc = 22
ordinal kw_desc = 23
ordinal kw_true = 24
ordinal kw_false = 25
ordinal eof = 26

abbrev pub same_kind : JqlTokenKind → JqlTokenKind → Bool
same_kind a b = eqb (ordinal a) (ordinal b)

pub record JqlToken : Type 0 where
  pub kind : JqlTokenKind
  pub text : String

abbrev pub token : JqlTokenKind → JqlToken
token k = record { kind = k; text = "" }

abbrev pub Tokens : Type 0
Tokens = List JqlToken

pub data JqlCompareOp : Type 0 where
  op_eq op_ne op_gt op_gte op_lt op_lte op_contains op_not_contains : JqlCompareOp

pub data JqlValue : Type 0 where
  str_value : String → JqlValue
  bool_value : Bool → JqlValue

mutual
  pub data JqlExpr : Type 0 where
    compare : String → JqlCompareOp → JqlValue → JqlExpr
    -- The field, whether it is NOT IN, the values.
    in_values : String → Bool → List JqlValue → JqlExpr
    is_empty : String → Bool → JqlExpr
    conj : JqlExprs → JqlExpr
    disj : JqlExprs → JqlExpr
    negation : JqlExpr → JqlExpr

  pub data JqlExprs : Type 0 where
    nil : JqlExprs
    cons : JqlExpr → JqlExprs → JqlExprs

pub record JqlOrder : Type 0 where
  pub field : String
  pub descending : Bool

pub record ParsedJql : Type 0 where
  pub expr : Option JqlExpr
  pub order_by : Option JqlOrder
