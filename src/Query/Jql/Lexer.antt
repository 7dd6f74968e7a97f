-- ===== src/Query/Jql/Lexer.antt =====
-- go/query/jql_lexer.go. The rest of the input is a text; each round of the loop costs one unit of
-- fuel, of which the input has one more than it has characters.
pub mod Total
use Prim.Native.Char.{Char, code}
use Prim.Native.String.{len, ◌++◌ as append}
use metap.Prelude.{
  ℕ, zero, suc, ◌+◌, ◌-◌, Bool, true, false, Option, none, some, List, [], ◌∷◌, String, ◌==◌, ◌&&◌,
  ◌||◌, ltb, leb, eqb, singleton, if◌then◌else◌,
}
use metap.Query.Jql.Syntax.{
  Jql, ok, invalid, out_of_fuel, JqlTokenKind, ident, text_literal, number, left_paren, right_paren,
  comma, eq, ne, gt, gte, lt, lte, tilde, not_tilde, kw_and, kw_or, kw_not, kw_in, kw_is, kw_empty,
  kw_order, kw_by, kw_asc, kw_desc, kw_true, kw_false, eof, JqlToken, token, Tokens,
}

abbrev pub max_jql_len : ℕ
max_jql_len = 2000

abbrev pub is_digit : ℕ → Bool
is_digit c = leb b'0' c && leb c b'9'

abbrev pub is_alpha : ℕ → Bool
is_alpha c = (leb b'a' c && leb c b'z') || (leb b'A' c && leb c b'Z')

abbrev pub is_alnum : ℕ → Bool
is_alnum c = is_alpha c || is_digit c

-- The upper-case code of a letter, as strings.ToUpper has it on ASCII words.
abbrev upper : ℕ → ℕ
upper c = if leb b'a' c && leb c b'z' then c - 32 else c

-- strings.ToUpper(word) == keyword
abbrev pub is_word : String → String → Bool
is_word String.[] String.[] = true
is_word String.[] (String.◌∷◌ k ks) = false
is_word (String.◌∷◌ c cs) String.[] = false
is_word (String.◌∷◌ c cs) (String.◌∷◌ k ks) = eqb (upper (code c)) (code k) && is_word cs ks

unfoldable pub jql_keyword : String → Option JqlTokenKind
jql_keyword word =
    if is_word word "AND"
    then some kw_and
    else if is_word word "OR"
    then some kw_or
    else if is_word word "NOT"
    then some kw_not
    else if is_word word "IN"
    then some kw_in
    else if is_word word "IS"
    then some kw_is
    else if is_word word "EMPTY"
    then some kw_empty
    else if is_word word "ORDER"
    then some kw_order
    else if is_word word "BY"
    then some kw_by
    else if is_word word "ASC"
    then some kw_asc
    else if is_word word "DESC"
    then some kw_desc
    else if is_word word "TRUE"
    then some kw_true
    else if is_word word "FALSE"
    then some kw_false
    else none

-- The longest prefix whose characters pass the test, and what follows it.
unfoldable pub scan_while : (ℕ → Bool) → String → String × String
scan_while p String.[] = (String.[], String.[])
scan_while p (String.◌∷◌ c s) =
    let (taken, rest) = scan_while p s in
    if p (code c) then (String.◌∷◌ c taken, rest) else (String.[], String.◌∷◌ c s)

abbrev written : Char → Option (String × String) → Option (String × String)
written c none = none
written c (some (s, rest)) = some (String.◌∷◌ c s, rest)

-- A quoted text from behind its opening quote: the text and what follows the closing quote.
unfoldable pub scan_quoted : ℕ → String → Option (String × String)
scan_quoted quote String.[] = none
scan_quoted quote (String.◌∷◌ c String.[]) = if eqb (code c) quote then some ("", "") else none
scan_quoted quote (String.◌∷◌ c (String.◌∷◌ d s)) =
    let escaped = written d (scan_quoted quote s) in
    let plain = written c (scan_quoted quote (String.◌∷◌ d s)) in
    if eqb (code c) b'\\'
    then escaped
    else if eqb (code c) quote
    then some ("", String.◌∷◌ d s)
    else plain

-- What a round of the loop finds: white space, a token and the rest, or an error.
pub data Lexeme : Type 0 where
  blank : String → Lexeme
  lexeme : JqlToken → String → Lexeme
  broken : String → Lexeme

-- The input goes on with this character.
abbrev next_is : ℕ → String → Bool
next_is c String.[] = false
next_is c (String.◌∷◌ d s) = eqb (code d) c

abbrev next_is_digit : String → Bool
next_is_digit String.[] = false
next_is_digit (String.◌∷◌ d s) = is_digit (code d)

abbrev rest_of : String → String
rest_of String.[] = String.[]
rest_of (String.◌∷◌ d s) = s

abbrev is_white : ℕ → Bool
is_white c = eqb c 32 || eqb c 9 || eqb c 10 || eqb c 13

abbrev pub word_token : String → JqlToken
word_token word = elim (jql_keyword word) [
  | some k ↦ token k
  | none ↦ record { kind = ident; text = word }
]

abbrev quoted_lexeme : Option (String × String) → Lexeme
quoted_lexeme none = broken "Unterminated string literal"
quoted_lexeme (some (s, rest)) = lexeme (record { kind = text_literal; text = s }) rest

abbrev number_lexeme : Char → String × String → Lexeme
number_lexeme c (taken, rest) = lexeme (record { kind = number; text = String.◌∷◌ c taken }) rest

abbrev word_lexeme : Char → String × String → Lexeme
word_lexeme c (taken, rest) = lexeme (word_token (String.◌∷◌ c taken)) rest

unfoldable next_lexeme : Char → String → Lexeme
unfolding scan_while scan_quoted jql_keyword
next_lexeme first s =
    let c = code first in
    if is_white c
    then blank s
    else if eqb c b'('
    then lexeme (token left_paren) s
    else if eqb c b')'
    then lexeme (token right_paren) s
    else if eqb c b','
    then lexeme (token comma) s
    else if eqb c b'='
    then lexeme (token eq) s
    else if eqb c b'!'
    then if next_is b'=' s
      then lexeme (token ne) (rest_of s)
      else if next_is b'~' s
      then lexeme (token not_tilde) (rest_of s)
      else broken "Unexpected '!' (expected '!=' or '!~')"
    else if eqb c b'>'
    then if next_is b'=' s then lexeme (token gte) (rest_of s) else lexeme (token gt) s
    else if eqb c b'<'
    then if next_is b'=' s then lexeme (token lte) (rest_of s) else lexeme (token lt) s
    else if eqb c b'~'
    then lexeme (token tilde) s
    else if eqb c 39 || eqb c b'"'
    then quoted_lexeme (scan_quoted c s)
    else if is_digit c || (eqb c b'-' && next_is_digit s)
    then number_lexeme first (scan_while (λ d. is_digit d || eqb d b'.') s)
    else if is_alpha c || eqb c b'_'
    then word_lexeme first (scan_while (λ d. is_alnum d || eqb d b'_') s)
    else broken (append "Unexpected character '" (append (singleton first) "'"))

abbrev pub put : JqlToken → Jql Tokens → Jql Tokens
put t (ok ts) = ok (t ∷ ts)
put t (invalid message) = invalid message
put t out_of_fuel = out_of_fuel

unfoldable pub tokens_of : ℕ → String → Jql Tokens
unfolding next_lexeme
tokens_of zero s = out_of_fuel
tokens_of (suc fuel) String.[] = ok (token eof ∷ [])
tokens_of (suc fuel) (String.◌∷◌ c s) = elim (next_lexeme c s) [
  | blank rest ↦ tokens_of fuel rest
  | lexeme t rest ↦ put t (tokens_of fuel rest)
  | broken message ↦ invalid message
]

-- The length of a text in characters.
abbrev pub text_length : String → ℕ
text_length String.[] = 0
text_length (String.◌∷◌ c s) = suc (text_length s)

unfoldable pub jql_tokenize : String → Jql Tokens
unfolding tokens_of
jql_tokenize input =
    if ltb max_jql_len (len input)
    then invalid "Query too long (max 2000 characters)"
    else tokens_of (suc (text_length input)) input
