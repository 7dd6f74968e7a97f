-- ===== src/Permission/Snapshot/Masking.antt =====
-- Field-level access: what a caller reads and writes of a record, said of the store's rows
-- (FilterReadableFields, WritableFields and AssertWritableFields of
-- go/permission/permissionsnapshot.go).
use mathlib.Core.Path.{fun_ext}
use text.Mathlib.TextPositions.{eq_refl}
use metap.Prelude.{
  Bool, true, false, Option, none, some, List, [], ◌∷◌, String, ◌≡◌, refl, ◌∙◌, ap, ◌&&◌, eq_iff,
  lookup, keep, all, mem_text, arith, if◌then◌else◌,
}
use metap.Json.{Json, JsonObject, object}
use metap.Permission.Context.{
  RequestContext, is_admin, PermissionDecision, permitted, forbidden_field,
}
use metap.Permission.Condition.{PolicyRow}
use metap.Permission.Evaluate.{evaluate_policies, is_allowed}
use metap.Permission.Snapshot.{
  permission_snapshot_from_rows, by_field, open_group, object_of, readable, filter_readable_fields,
  writable, writable_fields, first_unwritable, assert_writable_fields,
}
use metap.Permission.Snapshot.Groups.{
  is_field_row, field_row, group_of, lookup-by_field, field_policies_snapshot,
}

-- The rows of a field allow it, or there are none.
abbrev pub open_by : List PolicyRow → RequestContext → Option Json → Bool
open_by [] ctx subject = true
open_by (p ∷ ps) ctx subject = is_allowed (evaluate_policies (p ∷ ps) ctx subject)

abbrev pub is_open : String → List PolicyRow → RequestContext → Option Json → String → Bool
is_open action rows ctx subject k = open_by (keep (field_row action k) rows) ctx subject

keep-field_row :
    (action k : String) (rows : List PolicyRow)
    → keep (field_row action k) (keep is_field_row rows) ≡ keep (field_row action k) rows
keep-field_row action k [] = refl
keep-field_row action k (p ∷ ps) = ground (arith, keep-field_row action k ps)

lookup-keep :
    (g : String → Bool) (k : String) (r : JsonObject)
    → lookup k (keep (λ e. g e.0) r) ≡ (if g k then lookup k r else none)
unfolding lookup
lookup-keep g k [] = ground arith
lookup-keep g k ((j, v) ∷ r) = ground (arith, lookup-keep g k r, eq_iff j k)

mem-keep :
    (g : String → Bool) (k : String) (ks : List String)
    → mem_text k (keep g ks) ≡ (g k && mem_text k ks)
mem-keep g k [] = ground arith
mem-keep g k (j ∷ ks) = ground (arith, mem-keep g k ks, eq_iff j k)

all-mem_more :
    (j : String) (ks names : List String)
    → all (λ f. mem_text f ks) names ≡ true
    → all (λ f. mem_text f (j ∷ ks)) names ≡ true
all-mem_more j ks [] h = refl
all-mem_more j ks (f ∷ fs) h = ground (arith, all-mem_more j ks fs)

all-mem : (names : List String) → all (λ f. mem_text f names) names ≡ true
all-mem [] = refl
all-mem (f ∷ fs) = ground (arith, eq_refl f, all-mem_more f fs fs (all-mem fs))

open_group-group_of :
    (ps : List PolicyRow) (ctx : RequestContext) (subject : Option Json)
    → open_group (group_of ps) ctx subject ≡ open_by ps ctx subject
open_group-group_of [] ctx subject = refl
open_group-group_of (p ∷ ps) ctx subject = refl

-- The first of the names that is closed.
abbrev pub blame : (String → Bool) → List String → PermissionDecision
blame g [] = permitted
blame g (f ∷ fs) = let rest = blame g fs in if g f then rest else forbidden_field f

module _ (rows : List PolicyRow) (ctx : RequestContext) where
  -- What the maps of the snapshot answer for one key.
  open_group_lem :
      (action k : String) (subject : Option Json)
      → open_group
          (lookup k (by_field action (permission_snapshot_from_rows rows).field_policies []))
          ctx
          subject
        ≡ is_open action rows ctx subject k
  open_group_lem action k subject =
      rw (field_policies_snapshot rows, lookup-by_field, keep-field_row)
        (open_group-group_of (keep (field_row action k) rows) ctx subject)

  readable_lem :
      (r : JsonObject) (k : String)
      → readable (by_field "read" (permission_snapshot_from_rows rows).field_policies []) ctx r k
        ≡ is_open "read" rows ctx (some (object r)) k
  unfolding readable
  readable_lem r k = open_group_lem "read" k (some (object r))

  -- A caller who is no admin reads a field of a record, with its stored value, exactly when the
  -- store has no read policy of the field or those policies allow it; every other field is absent.
  pub filter_readable_fields_lem :
      (r : JsonObject) (k : String)
      → is_admin ctx ≡ false
      → lookup k (filter_readable_fields (permission_snapshot_from_rows rows) ctx r)
        ≡ (if is_open "read" rows ctx (some (object r)) k then lookup k r else none)
  unfolding filter_readable_fields
  filter_readable_fields_lem r k h =
      rw h (lookup-keep _ k r ∙ ap (λ b. if b then lookup k r else none) (readable_lem r k))

  first_unwritable_lem :
      (g : String → Bool) (all_names names : List String)
      → all (λ f. mem_text f all_names) names ≡ true
      → first_unwritable (keep g all_names) names ≡ blame g names
  unfolding first_unwritable
  first_unwritable_lem g all_names [] h = refl
  first_unwritable_lem g all_names (f ∷ fs) h =
      ground (arith, mem-keep g f all_names, first_unwritable_lem g all_names fs)

  -- A write by a caller who is no admin is permitted exactly when every field of the payload is
  -- open to it: no write policy of the field, or policies that allow it on the stored record. Else
  -- the answer names the first field of the payload that is not.
  pub assert_writable_fields_lem :
      (payload : List String) (existing : Option JsonObject)
      → is_admin ctx ≡ false
      → assert_writable_fields (permission_snapshot_from_rows rows) ctx payload existing
        ≡ blame (is_open "write" rows ctx (object_of existing)) payload
  unfolding assert_writable_fields writable_fields writable
  assert_writable_fields_lem payload existing h = rw h (
      first_unwritable_lem _ payload payload (all-mem payload)
      ∙ ap (λ g. blame g payload) (fun_ext (λ f. open_group_lem "write" f (object_of existing))))
