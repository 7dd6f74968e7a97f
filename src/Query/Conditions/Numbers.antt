-- ===== src/Query/Conditions/Numbers.antt =====
-- The texts that encoding/json takes for a number, where go/query/condition_to_sql.go decodes into a
-- json.Number.
use Prim.Native.Char.{code}
use metap.Prelude.{Bool, true, false, String, ◌&&◌, ◌||◌, eqb, if◌then◌else◌}
use metap.Query.Jql.Lexer.{is_digit}

abbrev digits_then : (String → Bool) → String → Bool
digits_then rest String.[] = rest String.[]
digits_then rest (String.◌∷◌ c s) =
    let more = digits_then rest s in if is_digit (code c) then more else rest (String.◌∷◌ c s)

abbrev some_digits : (String → Bool) → String → Bool
some_digits rest String.[] = false
some_digits rest (String.◌∷◌ c s) = is_digit (code c) && digits_then rest s

abbrev is_end : String → Bool
is_end String.[] = true
is_end (String.◌∷◌ c s) = false

abbrev signed_digits : String → Bool
signed_digits String.[] = false
signed_digits (String.◌∷◌ c s) =
    if eqb (code c) b'+' || eqb (code c) b'-'
    then some_digits is_end s
    else some_digits is_end (String.◌∷◌ c s)

abbrev exponent : String → Bool
exponent String.[] = true
exponent (String.◌∷◌ c s) = (eqb (code c) b'e' || eqb (code c) b'E') && signed_digits s

abbrev fraction : String → Bool
fraction String.[] = true
fraction (String.◌∷◌ c s) =
    if eqb (code c) b'.' then some_digits exponent s else exponent (String.◌∷◌ c s)

abbrev unsigned : String → Bool
unsigned String.[] = false
unsigned (String.◌∷◌ c s) =
    if eqb (code c) b'0' then fraction s else is_digit (code c) && digits_then fraction s

-- isValidNumber of encoding/json: a text decodes into a json.Number if it is the text of a number.
unfoldable pub is_valid_number : String → Bool
is_valid_number String.[] = false
is_valid_number (String.◌∷◌ c s) =
    if eqb (code c) b'-' then unsigned s else unsigned (String.◌∷◌ c s)
