-- ===== src/Permission/Snapshot/Grouping.antt =====
-- The maps from a text to a slice that go/permission/permissionsnapshot.go fills by appending.
use metap.Prelude.{
  Option, none, some, List, [], ◌∷◌, ◌++◌, String, ◌≡◌, ◌==◌, eq_iff, lookup, insert, lookup-insert,
  Assoc, arith, if◌then◌else◌,
}
use metap.Permission.Condition.{PolicyRow}

abbrev pub or_nil : Option (List PolicyRow) → List PolicyRow
or_nil none = []
or_nil (some ps) = ps

-- m[k], nil for a missing key
unfoldable pub group_at : String → Assoc (List PolicyRow) → List PolicyRow
group_at k m = or_nil (lookup k m)

-- m[k] = append(m[k], p)
unfoldable pub push_at : String → PolicyRow → Assoc (List PolicyRow) → Assoc (List PolicyRow)
unfolding group_at
push_at k p m = insert k (group_at k m ++ p ∷ []) m

pub group_at-push_at :
    (j k : String) (p : PolicyRow) (m : Assoc (List PolicyRow))
    → group_at j (push_at k p m) ≡ (if k == j then group_at j m ++ p ∷ [] else group_at j m)
unfolding group_at push_at
group_at-push_at j k p m = rw lookup-insert (ground (arith, eq_iff k j))

pub lookup-push_at :
    (j k : String) (p : PolicyRow) (m : Assoc (List PolicyRow))
    → lookup j (push_at k p m) ≡ (if k == j then some (group_at k m ++ p ∷ []) else lookup j m)
unfolding push_at
lookup-push_at j k p m = rw lookup-insert (ground arith)
