-- ===== src/Crud/Validation/Accepts.antt =====
-- What an accepted payload satisfies (ValidatePayload of go/crud/validation.go).
use metap.Prelude.{
  ℕ, ◌≤◌, Bool, true, false, Option, none, some, List, [], ◌∷◌, String, ◌≡◌, ◌≢◌, refl, sym, ap,
  ◌∙◌, ◌⊎◌, ◌==◌, ◌&&◌, lookup, insert, lookup-insert, mem_text, any, arith,
}
use metap.Prelude.Int.{ℤ, ltb_ℤ}
use metap.Json.{Json, JsonObject, as_number, as_string}
use metap.Metadata.Entity.{
  EntityField, EntityDefinition, FieldKind, kind_number, kind_money, kind_string, kind_enum,
  kind_reference, bool_val, is_reference,
}
use metap.Crud.Validation.{
  FieldErrors, add_error, add_errors, has_value, is_json_null, field_errors, stored_value,
  store_reference, validate_from, validate_payload, validated, accepted, is_valid, rune_count,
}

-- A predicate of every field.
abbrev pub Every : (EntityField → Type 0) → List EntityField → Type 0
Every P [] = Unit {0}
Every P (f ∷ fs) = P f × Every P fs

Every-map :
    {P Q : EntityField → Type 0}
    → ((f : EntityField) → P f → Q f)
    → (fs : List EntityField) → Every P fs
    → Every Q fs
Every-map g [] h = tt
Every-map g (f ∷ fs) h = (g f h.0, Every-map g fs h.1)

pub insert-ne-nil : (k : String) (v : List String) (m : FieldErrors) → insert k v m ≢ []
unfolding insert
insert-ne-nil k v [] = ground arith
insert-ne-nil k v ((j, w) ∷ m) = ground arith

add_errors-nil :
    (name : String) (es : List String) (errs : FieldErrors)
    → add_errors name es errs ≡ []
    → (es ≡ []) × (errs ≡ [])
unfolding add_errors add_error
add_errors-nil name [] errs h = (refl, h)
add_errors-nil name (e ∷ es) errs h = absurd (insert-ne-nil _ _ _ (add_errors-nil name es _ h).1)

validated-accepted :
    (r : JsonObject) (errs : FieldErrors) (x : JsonObject)
    → validated r errs ≡ accepted x
    → (errs ≡ []) × (r ≡ x)
validated-accepted r [] x h = (refl, ground arith)
validated-accepted r (e ∷ errs) x h = cc

-- The value of a field, where the payload has one that is not null.
abbrev Has : Option Json → Json → Type 0
Has v raw = (v ≡ some raw) × (is_json_null raw ≡ false)

abbrev IsNumeric : FieldKind → Type 0
IsNumeric k = (k ≡ kind_number) ⊎ (k ≡ kind_money)

module _ (parse_uuid : String → Option String) where
  -- A required field has a value. A value has the type of its kind, an enumeration's is among the
  -- declared ones, a number or an amount of money lies within the bounds, and the characters of a
  -- text are within the length bounds.
  pub record IsGood (f : EntityField) (v : Option Json) : Type 0 where
    pub present : bool_val f.required ≡ true → has_value v ≡ true
    pub typed : (raw : Json) → Has v raw → is_valid parse_uuid f f.kind raw ≡ true
    pub listed :
        (raw : Json) (s : String)
        → Has v raw
        → f.kind ≡ kind_enum
        → as_string raw ≡ some s
        → mem_text s f.enum_values ≡ true
    pub low :
        (raw : Json) (n m : ℤ)
        → Has v raw
        → IsNumeric f.kind
        → as_number raw ≡ some n
        → f.min_value ≡ some m
        → ltb_ℤ n m ≡ false
    pub high :
        (raw : Json) (n m : ℤ)
        → Has v raw
        → IsNumeric f.kind
        → as_number raw ≡ some n
        → f.max_value ≡ some m
        → ltb_ℤ m n ≡ false
    pub long_enough :
        (raw : Json) (s : String) (m : ℕ)
        → Has v raw
        → f.kind ≡ kind_string
        → as_string raw ≡ some s
        → f.min_length ≡ some m
        → m ≤ rune_count s
    pub short_enough :
        (raw : Json) (s : String) (m : ℕ)
        → Has v raw
        → f.kind ≡ kind_string
        → as_string raw ≡ some s
        → f.max_length ≡ some m
        → rune_count s ≤ m

  field_errors-IsGood :
      (f : EntityField) (v : Option Json) → field_errors parse_uuid f v ≡ [] → IsGood f v
  unfolding field_errors
  field_errors-IsGood f v h = record {
    present = λ r. ground arith;
    typed = λ raw k. ground arith;
    listed = λ raw s k e t. ground arith;
    low = λ raw n m k e t b. ground arith;
    high = λ raw n m k e t b. ground arith;
    long_enough = λ raw s m k e t b. ground arith;
    short_enough = λ raw s m k e t b. ground arith;
  }

  validate_from-errors :
      (fs : List EntityField) (data_ result : JsonObject) (errs : FieldErrors)
      → (validate_from parse_uuid fs data_ result errs).1 ≡ []
      → (errs ≡ []) × Every (λ f. field_errors parse_uuid f (lookup f.name data_) ≡ []) fs
  unfolding validate_from
  validate_from-errors [] data_ result errs h = (h, tt)
  validate_from-errors (f ∷ fs) data_ result errs h =
      let rest = validate_from-errors fs data_ _ _ h in
      let here =
        add_errors-nil f.name (field_errors parse_uuid f (lookup f.name data_)) errs rest.0 in
      (here.1, (here.0, rest.1))

  -- Every field of an accepted payload is good.
  pub validate_payload-IsGood :
      (entity : EntityDefinition) (data_ result : JsonObject)
      → validate_payload parse_uuid entity data_ ≡ accepted result
      → Every (λ f. IsGood f (lookup f.name data_)) entity.fields
  unfolding validate_payload
  validate_payload-IsGood entity data_ result h =
      Every-map (λ f. field_errors-IsGood f (lookup f.name data_)) entity.fields
        (validate_from-errors entity.fields data_ data_ [] (validated-accepted _ _ _ h).0).1

  abbrev pub is_reference_at : String → EntityField → Bool
  is_reference_at k f = f.name == k && is_reference f.kind

  store_reference_other :
      (k name : String) (kind : FieldKind) (raw : Json) (r : JsonObject)
      → (name == k && is_reference kind) ≡ false
      → lookup k (store_reference parse_uuid name kind raw r) ≡ lookup k r
  store_reference_other k name kind_reference raw r h = rw lookup-insert (ground arith)
  store_reference_other k name _ raw r h = refl

  stored_value_other :
      (k : String) (f : EntityField) (v : Option Json) (r : JsonObject)
      → is_reference_at k f ≡ false
      → lookup k (stored_value parse_uuid f v r) ≡ lookup k r
  unfolding stored_value
  stored_value_other k f none r h = refl
  stored_value_other k f (some raw) r h =
      ground (arith, store_reference_other k f.name f.kind raw r h)

  validate_from_other :
      (k : String) (fs : List EntityField) (data_ r : JsonObject) (errs : FieldErrors)
      → any (is_reference_at k) fs ≡ false
      → lookup k (validate_from parse_uuid fs data_ r errs).0 ≡ lookup k r
  unfolding validate_from
  validate_from_other k [] data_ r errs h = refl
  validate_from_other k (f ∷ fs) data_ r errs h =
      validate_from_other k fs data_ _ _ (ground arith)
      ∙ stored_value_other k f (lookup f.name data_) r (ground arith)

  -- An accepted payload is stored as it came, declared and undeclared keys alike, but for the
  -- fields that are references.
  pub validate_payload_other :
      (entity : EntityDefinition) (data_ result : JsonObject) (k : String)
      → validate_payload parse_uuid entity data_ ≡ accepted result
      → any (is_reference_at k) entity.fields ≡ false
      → lookup k result ≡ lookup k data_
  unfolding validate_payload
  validate_payload_other entity data_ result k h e =
      ap (lookup k) (sym (validated-accepted _ _ _ h).1)
      ∙ validate_from_other k entity.fields data_ data_ [] e
