-- ===== src/Query/Jql/Lexer/Total.antt =====
-- The rounds of the lexer of go/query/jql_lexer.go, and the end of its tokens.
use Prim.Native.Char.{Char, code}
use Prim.Native.String.{len}
use metap.Prelude.{
  ℕ, zero, suc, ◌≤◌, ◌<◌, Bool, true, false, Option, none, some, [], ◌∷◌, String, ◌≡◌, refl, ◌||◌,
  length, ltb, eqb, arith, Bool-cases, inl, inr,
}
use metap.Query.Jql.Syntax.{Jql, ok, invalid, out_of_fuel, JqlToken, eof, Tokens, same_kind}
use metap.Query.Jql.Lexer.{
  Lexeme, blank, lexeme, broken, scan_while, scan_quoted, next_lexeme, tokens_of, text_length,
  jql_tokenize, quoted_lexeme, rest_of, word_token, jql_keyword, is_digit, is_alnum, put,
  max_jql_len,
}

-- The last token is the end of the input, and no other one is.
abbrev pub EndsWithEof : Tokens → Type 0
EndsWithEof [] = ⊥
EndsWithEof (t ∷ []) = same_kind t.kind eof ≡ true
EndsWithEof (t ∷ u ∷ us) = (same_kind t.kind eof ≡ false) × EndsWithEof (u ∷ us)

abbrev rest_length : Option (String × String) → ℕ
rest_length none = 0
rest_length (some (s, rest)) = text_length rest

scan_while-le : (p : ℕ → Bool) (s : String) → text_length (scan_while p s).1 ≤ text_length s
unfolding scan_while
scan_while-le p String.[] = omega arith
scan_while-le p (String.◌∷◌ c s) = ground (arith, scan_while-le p s)

scan_quoted-le : (quote : ℕ) (s : String) → rest_length (scan_quoted quote s) ≤ text_length s
unfolding scan_quoted
scan_quoted-le quote String.[] = omega arith
scan_quoted-le quote (String.◌∷◌ c String.[]) = ground arith
scan_quoted-le quote (String.◌∷◌ c (String.◌∷◌ d s)) =
    ground (arith, scan_quoted-le quote s, scan_quoted-le quote (String.◌∷◌ d s))

-- What a round leaves is no longer than what it was given, and its token is not the end.
abbrev Advances : String → Lexeme → Type 0
Advances s (blank rest) = text_length rest ≤ text_length s
Advances s (lexeme t rest) = (text_length rest ≤ text_length s) × (same_kind t.kind eof ≡ false)
Advances s (broken message) = Unit {0}

-- A word is a keyword or an identifier.
word_token-ne-eof : (word : String) → same_kind (word_token word).kind eof ≡ false
unfolding jql_keyword
word_token-ne-eof word = ground arith

rest_of-le : (s : String) → text_length (rest_of s) ≤ text_length s
rest_of-le String.[] = omega arith
rest_of-le (String.◌∷◌ c s) = omega arith

quoted-Advances :
    (s : String) (found : Option (String × String))
    → rest_length found ≤ text_length s
    → Advances s (quoted_lexeme found)
quoted-Advances s none h = tt
quoted-Advances s (some (taken, rest)) h = (h, refl)

next_lexeme-Advances : (c : Char) (s : String) → Advances s (next_lexeme c s)
unfolding next_lexeme
next_lexeme-Advances c s = ground (
  arith,
  rest_of-le s,
  quoted-Advances s (scan_quoted (code c) s) (scan_quoted-le (code c) s),
  scan_while-le (λ (d : ℕ). is_digit d || eqb d b'.') s,
  scan_while-le (λ (d : ℕ). is_alnum d || eqb d b'_') s,
  word_token-ne-eof (String.◌∷◌ c (scan_while (λ d. is_alnum d || eqb d b'_') s).0),
)

-- The tokens of a text: they end with the end of the input and are at most one more than its
-- characters; or there is an error with a message.
abbrev pub IsLexed : ℕ → Jql Tokens → Type 0
IsLexed n (ok ts) = EndsWithEof ts × (length ts ≤ suc n)
IsLexed n (invalid message) = Unit {0}
IsLexed n out_of_fuel = ⊥

put-EndsWithEof :
    (t : JqlToken) (ts : Tokens)
    → same_kind t.kind eof ≡ false
    → EndsWithEof ts
    → EndsWithEof (t ∷ ts)
put-EndsWithEof t [] h e = absurd e
put-EndsWithEof t (u ∷ us) h e = (h, e)

put-IsLexed :
    (t : JqlToken) (m n : ℕ) (r : Jql Tokens)
    → same_kind t.kind eof ≡ false
    → m < n
    → IsLexed m r
    → IsLexed n (put t r)
put-IsLexed t m n (ok ts) h lt l = (put-EndsWithEof t ts h l.0, omega arith)
put-IsLexed t m n (invalid message) h lt l = tt
put-IsLexed t m n out_of_fuel h lt l = l

weaken : (m n : ℕ) (r : Jql Tokens) → m ≤ n → IsLexed m r → IsLexed n r
weaken m n (ok ts) h l = (l.0, omega arith)
weaken m n (invalid message) h l = tt
weaken m n out_of_fuel h l = l

-- What the rest of the loop does with a round.
abbrev go_on : ℕ → Lexeme → Jql Tokens
go_on fuel l = elim l [
  | blank rest ↦ tokens_of fuel rest
  | lexeme t rest ↦ put t (tokens_of fuel rest)
  | broken message ↦ invalid message
]

go_on-IsLexed :
    (fuel : ℕ) (s : String) (l : Lexeme)
    → ((rest : String) → text_length rest < fuel → IsLexed (text_length rest) (tokens_of fuel rest))
    → text_length s < fuel
    → Advances s l
    → IsLexed (suc (text_length s)) (go_on fuel l)
go_on-IsLexed fuel s (blank rest) ih h le =
    weaken (text_length rest) (suc (text_length s)) (tokens_of fuel rest) (omega arith)
      (ih rest (omega arith))
go_on-IsLexed fuel s (lexeme t rest) ih h (le, inner) =
    put-IsLexed t (text_length rest) (suc (text_length s)) (tokens_of fuel rest) inner (omega arith)
      (ih rest (omega arith))
go_on-IsLexed fuel s (broken message) ih h le = tt

tokens_of-IsLexed :
    (fuel : ℕ) (s : String) → text_length s < fuel → IsLexed (text_length s) (tokens_of fuel s)
unfolding tokens_of
tokens_of-IsLexed zero s h = absurd (omega arith)
tokens_of-IsLexed (suc fuel) String.[] h = (refl, omega arith)
tokens_of-IsLexed (suc fuel) (String.◌∷◌ c s) h =
    go_on-IsLexed fuel s (next_lexeme c s) (tokens_of-IsLexed fuel) (omega arith)
      (next_lexeme-Advances c s)

-- The lexer always ends: a query has a message, or tokens of which the last one, and no other, is the
-- end of the input, and which are at most one more than its characters.
pub jql_tokenize-IsLexed : (input : String) → IsLexed (text_length input) (jql_tokenize input)
unfolding jql_tokenize
jql_tokenize-IsLexed input = elim (Bool-cases (ltb max_jql_len (len input))) [
  | inl long ↦ rw long tt
  | inr short ↦ rw short (tokens_of-IsLexed (suc (text_length input)) input (omega arith))
]
