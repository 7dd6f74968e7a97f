-- ===== src/Json.antt =====
-- encoding/json as the source uses it: json.RawMessage is a decoded document, json.Unmarshal into a
-- Go type is one of the `as_` functions. Unmarshal accepts `null` for every target and leaves the
-- zero value; the `as_` functions do the same. A number is a multiple of 1/10000, the scale of
-- numeric(18,4): float64 rounding is not modelled. A decoded object has no key twice.
use metap.Prelude.{
  Bool, true, false, Option, none, some, List, [], ◌∷◌, String, Assoc, ◌&&◌, ◌==◌, eqb, lookup, map,
  all, mem_text, keys,
}
use metap.Prelude.Int.{ℤ, pos, pos_part, neg_part}

mutual
  pub data Json : Type 0 where
    null : Json
    bool : Bool → Json
    num : ℤ → Json
    str : String → Json
    arr : Items → Json
    obj : Fields → Json

  pub data Items : Type 0 where
    nil : Items
    cons : Json → Items → Items

  pub data Fields : Type 0 where
    end : Fields
    field : String → Json → Fields → Fields

-- map[string]json.RawMessage
abbrev pub JsonObject : Type 0
JsonObject = Assoc Json

abbrev pub to_list : Items → List Json
to_list nil = []
to_list (cons x xs) = x ∷ to_list xs

abbrev pub of_list : List Json → Items
of_list [] = nil
of_list (x ∷ xs) = cons x (of_list xs)

abbrev pub to_assoc : Fields → JsonObject
to_assoc end = []
to_assoc (field k v fs) = (k, v) ∷ to_assoc fs

abbrev pub of_assoc : JsonObject → Fields
of_assoc [] = end
of_assoc ((k, v) ∷ m) = field k v (of_assoc m)

-- json.Marshal of a map and of a slice of texts
abbrev pub object : JsonObject → Json
object m = obj (of_assoc m)

abbrev pub texts : List String → Json
texts ss = arr (of_list (map str ss))

abbrev pub as_string : Json → Option String
as_string null = some ""
as_string (str s) = some s
as_string _ = none

abbrev pub as_number : Json → Option ℤ
as_number null = some (pos 0)
as_number (num n) = some n
as_number _ = none

abbrev pub as_bool : Json → Option Bool
as_bool null = some false
as_bool (bool b) = some b
as_bool _ = none

abbrev pub as_array : Json → Option (List Json)
as_array null = some []
as_array (arr xs) = some (to_list xs)
as_array _ = none

abbrev pub as_object : Json → Option JsonObject
as_object null = some []
as_object (obj fs) = some (to_assoc fs)
as_object _ = none

abbrev all_strings : List Json → Option (List String)
all_strings [] = some []
all_strings (x ∷ xs) = elim (as_string x) [
  | none ↦ none
  | some s ↦ elim (all_strings xs) [ none ↦ none | some ss ↦ some (s ∷ ss) ]
]

-- json.Unmarshal into []string
abbrev pub as_strings : Json → Option (List String)
as_strings v = elim (as_array v) [ none ↦ none | some xs ↦ all_strings xs ]

abbrev same_number : ℤ → ℤ → Bool
same_number a b = eqb (pos_part a) (pos_part b) && eqb (neg_part a) (neg_part b)

abbrev same_bool : Bool → Bool → Bool
same_bool true b = b
same_bool false true = false
same_bool false false = true

-- Every key of the first object occurs in the second.
abbrev has_keys : JsonObject → JsonObject → Bool
has_keys m n = all (λ k. mem_text k (keys n)) (keys m)

-- Equality of decoded documents: objects are compared as maps, whatever the order of their keys.
unfoldable mutual
  pub json_equal : Json → Json → Bool
  json_equal null null = true
  json_equal (bool a) (bool b) = same_bool a b
  json_equal (num a) (num b) = same_number a b
  json_equal (str s) (str t) = s == t
  json_equal (arr xs) (arr ys) = items_equal xs ys
  json_equal (obj fs) (obj gs) =
      fields_within fs (to_assoc gs) && has_keys (to_assoc gs) (to_assoc fs)
  json_equal _ _ = false

  pub items_equal : Items → Items → Bool
  items_equal nil nil = true
  items_equal (cons x xs) (cons y ys) = json_equal x y && items_equal xs ys
  items_equal _ _ = false

  pub fields_within : Fields → JsonObject → Bool
  fields_within end m = true
  fields_within (field k v fs) m = elim (lookup k m) [
    | none ↦ false
    | some w ↦ json_equal v w && fields_within fs m
  ]
