-- ===== src/Crud/Validation.antt =====
-- go/crud/validation.go. `parse_uuid` is uuid.Parse of github.com/google/uuid, which returns the
-- canonical form of an identifier.
pub mod Accepts
use Prim.Native.Nat.{◌%◌}
use Prim.Native.String.{count}
use metap.Prelude.{
  ℕ, ◌^◌, Bool, true, false, not, Option, none, some, List, [], ◌∷◌, ◌++◌, String, ◌&&◌, ◌||◌,
  lookup, insert, Assoc, mem_text, ltb, if◌then◌else◌,
}
use metap.Prelude.Int.{ℤ, ltb_ℤ}
use metap.Json.{Json, null, str, JsonObject, as_string, as_number, as_bool}
use metap.Metadata.Entity.{
  FieldKind, kind_id, kind_string, kind_number, kind_boolean, kind_date, kind_datetime, kind_money,
  kind_enum, kind_reference, kind_json, other_kind, EntityField, EntityDefinition, bool_val,
}

abbrev pub FieldErrors : Type 0
FieldErrors = Assoc (List String)

abbrev or_nil : Option (List String) → List String
or_nil none = []
or_nil (some es) = es

-- errs[name] = append(errs[name], e)
unfoldable pub add_error : String → String → FieldErrors → FieldErrors
add_error name e errs = insert name (or_nil (lookup name errs) ++ e ∷ []) errs

abbrev pub is_json_null : Json → Bool
is_json_null null = true
is_json_null _ = false

abbrev pub has_value : Option Json → Bool
has_value none = false
has_value (some raw) = not (is_json_null raw)

abbrev is_some {ℓ} : {A : Type ℓ} → Option A → Bool
is_some none = false
is_some (some _) = true

module _ (parse_uuid : String → Option String) where
  abbrev is_uuid : Option String → Bool
  is_uuid none = false
  is_uuid (some s) = is_some (parse_uuid s)

  unfoldable pub kind_matches : FieldKind → Json → Bool
  kind_matches kind_id raw = is_some (as_string raw)
  kind_matches kind_string raw = is_some (as_string raw)
  kind_matches kind_reference raw = is_uuid (as_string raw)
  kind_matches kind_number raw = is_some (as_number raw)
  kind_matches kind_money raw = is_some (as_number raw)
  kind_matches kind_boolean raw = is_some (as_bool raw)
  kind_matches kind_date raw = is_some (as_string raw)
  kind_matches kind_datetime raw = is_some (as_string raw)
  kind_matches kind_json raw = true
  kind_matches _ raw = false

  abbrev in_values : List String → Option String → Bool
  in_values vs none = false
  in_values vs (some s) = mem_text s vs

  -- An enumeration is tested against its values, any other kind by its type.
  unfoldable pub is_valid : EntityField → FieldKind → Json → Bool
  unfolding kind_matches
  is_valid f kind_enum raw = in_values f.enum_values (as_string raw)
  is_valid f k raw = kind_matches k raw

  -- The canonical form of a reference that is valid.
  abbrev canonical_text : String → Json
  canonical_text s = elim (parse_uuid s) [ none ↦ str s | some u ↦ str u ]

  unfoldable pub canonical : FieldKind → Json → Json
  canonical kind_reference raw = elim (as_string raw) [ none ↦ raw | some s ↦ canonical_text s ]
  canonical _ raw = raw

abbrev fails : Bool → String → List String → List String
fails true e es = e ∷ es
fails false e es = es

abbrev below_min : Option ℤ → ℤ → Bool
below_min none n = false
below_min (some m) n = ltb_ℤ n m

abbrev above_max : Option ℤ → ℤ → Bool
above_max none n = false
above_max (some m) n = ltb_ℤ m n

abbrev too_short : Option ℕ → ℕ → Bool
too_short none n = false
too_short (some m) n = ltb n m

abbrev too_long : Option ℕ → ℕ → Bool
too_long none n = false
too_long (some m) n = ltb m n

abbrev number_errors : EntityField → Option ℤ → List String
number_errors f none = []
number_errors f (some n) =
    fails (below_min f.min_value n) "min" (fails (above_max f.max_value n) "max" [])

-- uint32(utf8.RuneCountInString(s))
abbrev pub rune_count : String → ℕ
rune_count s = count s % 2 ^ 32

abbrev length_errors : EntityField → Option String → List String
length_errors f none = []
length_errors f (some s) =
    fails (too_short f.min_length (rune_count s)) "min_length"
      (fails (too_long f.max_length (rune_count s)) "max_length" [])

-- The errors of the range of a value whose type is right.
unfoldable pub range_errors : EntityField → FieldKind → Json → List String
range_errors f kind_number raw = number_errors f (as_number raw)
range_errors f kind_money raw = number_errors f (as_number raw)
range_errors f kind_string raw = length_errors f (as_string raw)
range_errors f _ raw = []

module _ (parse_uuid : String → Option String) where
  abbrev value_errors : EntityField → Json → List String
  value_errors f raw =
      if not (is_valid parse_uuid f f.kind raw)
      then "invalid_type" ∷ []
      else range_errors f f.kind raw

  -- The errors that one round of the loop appends for its field.
  unfoldable pub field_errors : EntityField → Option Json → List String
  unfolding is_valid range_errors
  field_errors f none = if bool_val f.required then "required" ∷ [] else []
  field_errors f (some raw) =
      if is_json_null raw
      then (if bool_val f.required then "required" ∷ [] else [])
      else value_errors f raw

  -- Only a reference is rewritten.
  abbrev pub store_reference : String → FieldKind → Json → JsonObject → JsonObject
  store_reference name kind_reference raw r =
      insert name (canonical parse_uuid kind_reference raw) r
  store_reference name _ raw r = r

  -- What the round writes into the result: the canonical form of a valid value.
  unfoldable pub stored_value : EntityField → Option Json → JsonObject → JsonObject
  unfolding is_valid canonical
  stored_value f none result = result
  stored_value f (some raw) result =
      if is_json_null raw || not (is_valid parse_uuid f f.kind raw)
      then result
      else store_reference f.name f.kind raw result

unfoldable pub add_errors : String → List String → FieldErrors → FieldErrors
add_errors name [] errs = errs
add_errors name (e ∷ es) errs = add_errors name es (add_error name e errs)

-- A payload is accepted with its stored form, or refused with errors.
pub data Validated : Type 0 where
  accepted : JsonObject → Validated
  refused : FieldErrors → Validated

abbrev pub validated : JsonObject → FieldErrors → Validated
validated result [] = accepted result
validated result (e ∷ errs) = refused (e ∷ errs)

module _ (parse_uuid : String → Option String) where
  -- The loop over the fields.
  unfoldable pub validate_from :
      List EntityField → JsonObject → JsonObject → FieldErrors → JsonObject × FieldErrors
  unfolding field_errors stored_value add_errors
  validate_from [] data_ result errs = (result, errs)
  validate_from (f ∷ fs) data_ result errs =
      validate_from fs data_ (stored_value parse_uuid f (lookup f.name data_) result)
        (add_errors f.name (field_errors parse_uuid f (lookup f.name data_)) errs)

  unfoldable pub validate_payload : EntityDefinition → JsonObject → Validated
  unfolding validate_from
  validate_payload entity data_ =
      let (result, errs) = validate_from entity.fields data_ data_ [] in validated result errs
