-- ===== src/Permission/Snapshot/Groups.antt =====
-- What the maps of a snapshot hold, said of the rows that it was built from.
use mathlib.Core.List.{append_assoc, append-nil}
use metap.Prelude.{
  Bool, true, false, not, Option, none, some, List, [], ◌∷◌, ◌++◌, String, ◌≡◌, refl, sym, ap, ◌∙◌,
  ◌==◌, ◌&&◌, ◌||◌, eq_iff, lookup, keep, Assoc, arith, if◌then◌else◌,
}
use metap.Permission.Condition.{PolicyRow}
use metap.Permission.Context.{EntityAction, action_name}
use metap.Permission.Snapshot.{
  PermissionSnapshot, add_row, add_rows, permission_snapshot_from_rows, by_field,
  get_record_policies, no_policies,
}
use metap.Permission.Snapshot.Grouping.{or_nil, group_at, push_at, group_at-push_at, lookup-push_at}

-- A policy on the whole entity (no field) with this subject and action.
abbrev pub entity_row : String → String → PolicyRow → Bool
entity_row subject action p = p.field == "" && p.subject == subject && p.action == action

abbrev pub is_field_row : PolicyRow → Bool
is_field_row p = not (p.field == "")

-- One row more at the end of a group, if the test says so.
abbrev grow : Bool → PolicyRow → List PolicyRow → List PolicyRow
grow b p xs = if b then xs ++ p ∷ [] else xs

grow-append :
    (b : Bool) (p : PolicyRow) (xs ys : List PolicyRow)
    → grow b p xs ++ ys ≡ xs ++ (if b then p ∷ ys else ys)
grow-append true p xs ys = append_assoc xs (p ∷ []) ys
grow-append false p xs ys = refl

context_group-add_row :
    (s : PermissionSnapshot) (p : PolicyRow) (a : String)
    → group_at a (add_row s p).context_policies_by_action
      ≡ grow (entity_row "context" a p) p (group_at a s.context_policies_by_action)
unfolding add_row
context_group-add_row s p a =
    ground (arith, group_at-push_at a p.action p s.context_policies_by_action, eq_iff p.action a)

record_group-add_row :
    (s : PermissionSnapshot) (p : PolicyRow) (a : String)
    → group_at a (add_row s p).record_policies_by_action
      ≡ grow (entity_row "record" a p) p (group_at a s.record_policies_by_action)
unfolding add_row
record_group-add_row s p a =
    ground (arith, group_at-push_at a p.action p s.record_policies_by_action, eq_iff p.action a)

context_group-add_rows :
    (s : PermissionSnapshot) (rows : List PolicyRow) (a : String)
    → group_at a (add_rows s rows).context_policies_by_action
      ≡ group_at a s.context_policies_by_action ++ keep (entity_row "context" a) rows
unfolding add_rows
context_group-add_rows s [] a = rw append-nil
context_group-add_rows s (p ∷ ps) a =
    rw (context_group-add_rows (add_row s p) ps a, context_group-add_row s p a)
      (grow-append (entity_row "context" a p) p _ _)

record_group-add_rows :
    (s : PermissionSnapshot) (rows : List PolicyRow) (a : String)
    → group_at a (add_rows s rows).record_policies_by_action
      ≡ group_at a s.record_policies_by_action ++ keep (entity_row "record" a) rows
unfolding add_rows
record_group-add_rows s [] a = rw append-nil
record_group-add_rows s (p ∷ ps) a =
    rw (record_group-add_rows (add_row s p) ps a, record_group-add_row s p a)
      (grow-append (entity_row "record" a p) p _ _)

field_policies-add_rows :
    (s : PermissionSnapshot) (rows : List PolicyRow)
    → (add_rows s rows).field_policies ≡ s.field_policies ++ keep is_field_row rows
unfolding add_rows add_row
field_policies-add_rows s [] = rw append-nil
field_policies-add_rows s (p ∷ ps) =
    field_policies-add_rows (add_row s p) ps ∙ grow_unless (p.field == "") p s.field_policies _
  where
    grow_unless :
        (b : Bool) (q : PolicyRow) (xs ys : List PolicyRow)
        → (if b then xs else xs ++ q ∷ []) ++ ys ≡ xs ++ (if not b then q ∷ ys else ys)
    grow_unless true q xs ys = refl
    grow_unless false q xs ys = append_assoc xs (q ∷ []) ys

module _ (rows : List PolicyRow) where
  -- A snapshot groups the rows of the store by kind and by action, and keeps their order.
  pub context_group_snapshot :
      (a : String)
      → group_at a (permission_snapshot_from_rows rows).context_policies_by_action
        ≡ keep (entity_row "context" a) rows
  unfolding permission_snapshot_from_rows group_at lookup
  context_group_snapshot a = context_group-add_rows no_policies rows a

  pub record_policies_snapshot :
      (action : EntityAction)
      → get_record_policies (permission_snapshot_from_rows rows) action
        ≡ keep (entity_row "record" (action_name action)) rows
  unfolding permission_snapshot_from_rows get_record_policies group_at lookup
  record_policies_snapshot action = record_group-add_rows no_policies rows (action_name action)

  pub field_policies_snapshot :
      (permission_snapshot_from_rows rows).field_policies ≡ keep is_field_row rows
  unfolding permission_snapshot_from_rows
  field_policies_snapshot = field_policies-add_rows no_policies rows

-- The field policies that `by_field` puts under a key.
abbrev pub field_row : String → String → PolicyRow → Bool
field_row action k p = not (not (p.action == action) || p.field == "") && p.field == k

-- No rows leave a key missing.
abbrev pub group_of : List PolicyRow → Option (List PolicyRow)
group_of [] = none
group_of (p ∷ ps) = some (p ∷ ps)

abbrev joined : Option (List PolicyRow) → List PolicyRow → Option (List PolicyRow)
joined none qs = group_of qs
joined (some ps) qs = some (ps ++ qs)

joined-nil : (o : Option (List PolicyRow)) → joined o [] ≡ o
joined-nil none = refl
joined-nil (some ps) = ap some (append-nil ps)

joined-push :
    (b : Bool) (p : PolicyRow) (old : Option (List PolicyRow)) (rest : List PolicyRow)
    → joined (if b then some (or_nil old ++ p ∷ []) else old) rest
      ≡ joined old (if b then p ∷ rest else rest)
joined-push true p none rest = refl
joined-push true p (some ps) rest = ap some (append_assoc ps (p ∷ []) rest)
joined-push false p old rest = refl

-- One round of the loop, seen from one key.
lookup-by_field-step :
    (action k : String) (p : PolicyRow) (m : Assoc (List PolicyRow))
    → lookup k (if not (p.action == action) || p.field == "" then m else push_at p.field p m)
      ≡ (if field_row action k p then some (or_nil (lookup k m) ++ p ∷ []) else lookup k m)
unfolding group_at
lookup-by_field-step action k p m = ground (arith, lookup-push_at k p.field p m, eq_iff p.field k)

lookup-by_field_from :
    (action k : String) (ps : List PolicyRow) (m : Assoc (List PolicyRow))
    → lookup k (by_field action ps m) ≡ joined (lookup k m) (keep (field_row action k) ps)
unfolding by_field
lookup-by_field_from action k [] m = sym (joined-nil (lookup k m))
lookup-by_field_from action k (p ∷ ps) m =
    lookup-by_field_from action k ps _
    ∙ (rw lookup-by_field-step (joined-push (field_row action k p) p (lookup k m) _))

-- The map of a read or write check holds, under a field, that field's rows of the action.
pub lookup-by_field :
    (action k : String) (ps : List PolicyRow)
    → lookup k (by_field action ps []) ≡ group_of (keep (field_row action k) ps)
unfolding lookup
lookup-by_field action k ps = lookup-by_field_from action k ps []
