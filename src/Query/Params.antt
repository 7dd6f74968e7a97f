-- ===== src/Query/Params.antt =====
-- go/query/sql_builder.go: the parameters of a statement, in the order of their placeholders.
use Prim.Native.String.{◌++◌ as append}
use metap.Prelude.{
  ℕ, zero, suc, ◌/◌, ◌%◌, Bool, List, [], ◌∷◌, ◌++◌, String, length, eqb, if◌then◌else◌,
}

pub data BindValue : Type 0 where
  text_bind : String → BindValue
  bool_bind : Bool → BindValue
  uuid_bind : String → BindValue

abbrev pub Params : Type 0
Params = List BindValue

abbrev digit : ℕ → String
digit zero = "0"
digit (suc zero) = "1"
digit (suc (suc zero)) = "2"
digit (suc (suc (suc zero))) = "3"
digit (suc (suc (suc (suc zero)))) = "4"
digit (suc (suc (suc (suc (suc zero))))) = "5"
digit (suc (suc (suc (suc (suc (suc zero)))))) = "6"
digit (suc (suc (suc (suc (suc (suc (suc zero))))))) = "7"
digit (suc (suc (suc (suc (suc (suc (suc (suc zero)))))))) = "8"
digit _ = "9"

-- The digits of a number before an accumulator; the number itself is enough fuel.
digits : ℕ → ℕ → String → String
digits zero n acc = append (digit (n % 10)) acc
digits (suc fuel) n acc =
    let rest = digits fuel (n / 10) (append (digit (n % 10)) acc) in
    if eqb (n / 10) 0 then append (digit (n % 10)) acc else rest

-- fmt.Sprintf("%d", n)
unfoldable pub decimal : ℕ → String
unfolding digits
decimal n = digits n n ""

-- The placeholder of a position.
unfoldable pub placeholder : ℕ → String
placeholder n = append "$" (decimal n)

-- ParamBuilder.Push: the placeholder and the parameters after it.
unfoldable pub push : BindValue → Params → String × Params
push v params = (placeholder (length (params ++ v ∷ [])), params ++ v ∷ [])
