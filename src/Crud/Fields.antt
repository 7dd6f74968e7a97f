-- ===== src/Crud/Fields.antt =====
-- Fields that no payload writes: system fields (go/crud/system_fields.go) and computed ones
-- (recomputeFields of go/crud/helpers.go). `number_text` and `json_text` are Go's renderings of a
-- number (the verbs %d and %g of fmt) and of a list or an object (json.Marshal).
use metap.Prelude.{
  Bool, true, false, not, Option, none, some, List, [], ◌∷◌, ◌++◌, String, ◌≡◌, refl, ◌∙◌, ◌==◌,
  ◌&&◌, eq_iff, lookup, insert, lookup-insert, keep, any, mem_text, arith, if◌then◌else◌,
}
use metap.Prelude.Int.{ℤ}
use metap.Json.{Json, null, bool, num, str, arr, obj, JsonObject}
use metap.Metadata.Entity.{EntityField, EntityDefinition, ComputedSpec, system_field_names}
use metap.Metadata.Computed.{render_expression}
use metap.Crud.Validation.{FieldErrors, add_error}

unfoldable pub reject_names : List String → JsonObject → FieldErrors → FieldErrors
reject_names [] data_ errs = errs
reject_names (name ∷ names) data_ errs =
    reject_names names data_
      (elim (lookup name data_) [ none ↦ errs | some _ ↦ add_error name "system_field" errs ])

unfoldable pub reject_system_fields : EntityDefinition → JsonObject → FieldErrors
unfolding reject_names
reject_system_fields entity data_ = reject_names (system_field_names entity) data_ []

-- data - names || the stored values of the names
unfoldable pub keep_stored : List String → JsonObject → JsonObject → JsonObject
keep_stored names new stored =
    keep (λ e. not (mem_text e.0 names)) new ++ keep (λ e. mem_text e.0 names) stored

lookup-append :
    (k : String) (m n : JsonObject)
    → lookup k (m ++ n) ≡ elim (lookup k m) [ none ↦ lookup k n | some v ↦ some v ]
unfolding lookup
lookup-append k [] n = refl
lookup-append k (e ∷ m) n = ground (arith, lookup-append k m n)

lookup-keep :
    (g : String → Bool) (k : String) (m : JsonObject)
    → lookup k (keep (λ e. g e.0) m) ≡ (if g k then lookup k m else none)
unfolding lookup
lookup-keep g k [] = ground arith
lookup-keep g k (e ∷ m) = ground (arith, lookup-keep g k m, eq_iff e.0 k)

-- The names keep what is stored, present or not; every other key has what is new.
pub keep_stored_lem :
    (names : List String) (new stored : JsonObject) (k : String)
    → lookup k (keep_stored names new stored)
      ≡ (if mem_text k names then lookup k stored else lookup k new)
unfolding keep_stored
keep_stored_lem names new stored k = ground (
  arith,
  lookup-append k (keep (λ e. not (mem_text e.0 names)) new)
      (keep (λ e. mem_text e.0 names) stored),
  lookup-keep (λ j. not (mem_text j names)) k new,
  lookup-keep (λ j. mem_text j names) k stored,
)

module _ (number_text : ℤ → String) (json_text : Json → String) where
  -- computedTokenToString
  unfoldable pub computed_token_to_string : Json → String
  computed_token_to_string null = ""
  computed_token_to_string (str s) = s
  computed_token_to_string (num n) = number_text n
  computed_token_to_string (bool true) = "true"
  computed_token_to_string (bool false) = "false"
  computed_token_to_string (arr xs) = json_text (arr xs)
  computed_token_to_string (obj fs) = json_text (obj fs)

  abbrev pub resolve_token : JsonObject → String → Option String
  resolve_token data_ name = elim (lookup name data_) [
    | none ↦ none
    | some raw ↦ some (computed_token_to_string raw)
  ]

  -- One round of the loop.
  abbrev pub recompute_field : Option ComputedSpec → String → JsonObject → JsonObject
  recompute_field none name data_ = data_
  recompute_field (some spec) name data_ =
      insert name (str (render_expression spec.expression (resolve_token data_))) data_

  unfoldable pub recompute_fields : List EntityField → JsonObject → JsonObject
  recompute_fields [] data_ = data_
  recompute_fields (f ∷ fs) data_ = recompute_fields fs (recompute_field f.computed f.name data_)

  abbrev pub is_computed_at : String → EntityField → Bool
  is_computed_at k f = f.name == k && elim f.computed [ none ↦ false | some _ ↦ true ]

  recompute_field_other :
      (spec : Option ComputedSpec) (name k : String) (data_ : JsonObject)
      → (name == k && elim spec [ none ↦ false | some _ ↦ true ]) ≡ false
      → lookup k (recompute_field spec name data_) ≡ lookup k data_
  recompute_field_other none name k data_ h = refl
  recompute_field_other (some spec) name k data_ h = rw lookup-insert (ground arith)

  -- A key that is no computed field keeps its value.
  pub recompute_fields_other :
      (fs : List EntityField) (data_ : JsonObject) (k : String)
      → any (is_computed_at k) fs ≡ false
      → lookup k (recompute_fields fs data_) ≡ lookup k data_
  unfolding recompute_fields
  recompute_fields_other [] data_ k h = refl
  recompute_fields_other (f ∷ fs) data_ k h =
      recompute_fields_other fs _ k (ground arith)
      ∙ recompute_field_other f.computed f.name k data_ (ground arith)
