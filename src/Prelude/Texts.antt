-- ===== src/Prelude/Texts.antt =====
-- What the source uses of Go's `strings`: a prefix is cut, a text is split at a byte or cut at its
-- first one, and the order of texts. A text is walked by its characters.
use Prim.Native.Nat.{ℕ}
use Prim.Native.Char.{Char, code}
use Prim.Native.String.{String}
use mathlib.Core.Bool.{Bool, true, false, ◌&&◌, ◌||◌}
use mathlib.Core.Option.{Option, none, some}
use mathlib.Core.List.{List, [], ◌∷◌}
use metap.Prelude.Tests.{ltb, eqb, if◌then◌else◌}
use text.Mathlib.Text.{◌==◌}

-- A text of one character.
abbrev pub singleton : Char → String
singleton c = String.◌∷◌ c String.[]

-- strings.CutPrefix(s, prefix)
abbrev pub cut_prefix : String → String → Option String
cut_prefix s String.[] = some s
cut_prefix String.[] (String.◌∷◌ p ps) = none
cut_prefix (String.◌∷◌ c cs) (String.◌∷◌ p ps) =
    let rest = cut_prefix cs ps in if eqb (code c) (code p) then rest else none

abbrev pub has_prefix : String → String → Bool
has_prefix s p = elim (cut_prefix s p) [ none ↦ false | some _ ↦ true ]

abbrev prepend : Char → List String → List String
prepend c [] = singleton c ∷ []
prepend c (w ∷ ws) = String.◌∷◌ c w ∷ ws

-- strings.Split(s, sep) for a separator of one character: never empty.
abbrev pub split : ℕ → String → List String
split sep String.[] = String.[] ∷ []
split sep (String.◌∷◌ c s) =
    let rest = split sep s in if eqb (code c) sep then String.[] ∷ rest else prepend c rest

abbrev prepend_head : Char → Option (String × String) → Option (String × String)
prepend_head c none = none
prepend_head c (some (head, rest)) = some (String.◌∷◌ c head, rest)

-- strings.Cut(s, sep) for a separator of one character; `none` when it does not occur.
abbrev pub cut : ℕ → String → Option (String × String)
cut sep String.[] = none
cut sep (String.◌∷◌ c s) =
    let rest = cut sep s in if eqb (code c) sep then some (String.[], s) else prepend_head c rest

abbrev is_space : ℕ → Bool
is_space c = eqb c 32 || (ltb 8 c && ltb c 14)

abbrev add_word : String → List String → List String
add_word w ws = if w == "" then ws else w ∷ ws

abbrev fields_of : List String → List String
fields_of [] = []
fields_of (w ∷ ws) = add_word w (fields_of ws)

abbrev split_space : String → List String
split_space String.[] = String.[] ∷ []
split_space (String.◌∷◌ c s) =
    let rest = split_space s in if is_space (code c) then String.[] ∷ rest else prepend c rest

-- strings.Fields(s), over ASCII white space: the maximal runs of other characters.
abbrev pub fields : String → List String
fields s = fields_of (split_space s)

-- s < t on Go strings: by bytes, which for UTF-8 is by code points.
abbrev pub text_lt : String → String → Bool
text_lt String.[] String.[] = false
text_lt String.[] (String.◌∷◌ d t) = true
text_lt (String.◌∷◌ c s) String.[] = false
text_lt (String.◌∷◌ c s) (String.◌∷◌ d t) =
    ltb (code c) (code d) || (eqb (code c) (code d) && text_lt s t)

-- The text occurs in the slice.
abbrev pub mem_text : String → List String → Bool
mem_text s [] = false
mem_text s (t ∷ ts) = t == s || mem_text s ts
