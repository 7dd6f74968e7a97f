-- ===== src/Metadata/Computed.antt =====
-- go/metadata/computed.go. The index of a byte of the source is a count of characters: both braces
-- are ASCII. `skip` is how far the source's index has run ahead of the text that is left.
use Prim.Native.Char.{code}
use Prim.Native.String.{◌++◌}
use metap.Prelude.{
  ℕ, suc, zero, Bool, true, false, Option, none, some, List, [], ◌∷◌, String, ◌≡◌, refl, eqb,
  singleton, if◌then◌else◌,
}

-- strings.IndexByte(s, '}')
unfoldable pub index_close : String → Option ℕ
index_close String.[] = none
index_close (String.◌∷◌ c s) =
    let rest = index_close s in
    if eqb (code c) b'}' then some 0 else elim rest [ none ↦ none | some n ↦ some (suc n) ]

-- s[:n]
unfoldable pub take : ℕ → String → String
take zero s = String.[]
take (suc n) String.[] = String.[]
take (suc n) (String.◌∷◌ c s) = String.◌∷◌ c (take n s)

unfoldable tokens_from : ℕ → String → List String
unfolding index_close take
tokens_from skip String.[] = []
tokens_from (suc skip) (String.◌∷◌ c s) = tokens_from skip s
tokens_from zero (String.◌∷◌ c s) =
    let next = tokens_from 0 s in
    if eqb (code c) b'{'
    then elim (index_close s) [ none ↦ next | some n ↦ take n s ∷ tokens_from (suc n) s ]
    else next

unfoldable pub expression_tokens : String → List String
unfolding tokens_from
expression_tokens expression = tokens_from 0 expression

-- The text of a name, empty if it does not resolve.
abbrev pub text_or_empty : Option String → String
text_or_empty none = ""
text_or_empty (some v) = v

unfoldable render_from : ℕ → String → (String → Option String) → String
unfolding index_close take
render_from skip String.[] resolve = String.[]
render_from (suc skip) (String.◌∷◌ c s) resolve = render_from skip s resolve
render_from zero (String.◌∷◌ c s) resolve =
    let next = singleton c ++ render_from 0 s resolve in
    if eqb (code c) b'{'
    then elim (index_close s) [
      | none ↦ next
      | some n ↦ text_or_empty (resolve (take n s)) ++ render_from (suc n) s resolve
    ]
    else next

unfoldable pub render_expression : String → (String → Option String) → String
unfolding render_from
render_expression expression resolve = render_from 0 expression resolve

-- Two resolvers give the same text for each of the names.
abbrev pub Agree : (String → Option String) → (String → Option String) → List String → Type 0
Agree f g [] = Unit {0}
Agree f g (name ∷ names) = (text_or_empty (f name) ≡ text_or_empty (g name)) × Agree f g names

render_from-Agree :
    (skip : ℕ) (s : String) (f g : String → Option String)
    → Agree f g (tokens_from skip s)
    → render_from skip s f ≡ render_from skip s g
unfolding tokens_from render_from
render_from-Agree skip String.[] f g h = refl
render_from-Agree (suc skip) (String.◌∷◌ c s) f g h = render_from-Agree skip s f g h
render_from-Agree zero (String.◌∷◌ c s) f g h =
    split (eqb (code c) b'{') (index_close s) h (render_from-Agree zero s f g)
      (λ n. render_from-Agree (suc n) s f g)
  where
    split :
        (open_ : Bool) (close : Option ℕ)
        → Agree f g (
            if open_
            then elim close [
              | none ↦ tokens_from zero s
              | some n ↦ take n s ∷ tokens_from (suc n) s
            ]
            else tokens_from zero s)
        → (Agree f g (tokens_from zero s) → render_from zero s f ≡ render_from zero s g)
        → ((n : ℕ)
            → Agree f g (tokens_from (suc n) s)
            → render_from (suc n) s f ≡ render_from (suc n) s g)
        → (if open_
            then elim close [
              | none ↦ singleton c ++ render_from zero s f
              | some n ↦ text_or_empty (f (take n s)) ++ render_from (suc n) s f
            ]
            else singleton c ++ render_from zero s f)
          ≡ (if open_
              then elim close [
                | none ↦ singleton c ++ render_from zero s g
                | some n ↦ text_or_empty (g (take n s)) ++ render_from (suc n) s g
              ]
              else singleton c ++ render_from zero s g)
    split false close k here skip = rw (here k)
    split true none k here skip = rw (here k)
    split true (some n) k here skip = cc (k.0, skip n k.1)

-- What an expression renders to depends on its resolver only at the tokens of the expression.
render_expression-Agree :
    (expression : String) (f g : String → Option String)
    → Agree f g (expression_tokens expression)
    → render_expression expression f ≡ render_expression expression g
unfolding expression_tokens render_expression
render_expression-Agree expression f g h = render_from-Agree 0 expression f g h
