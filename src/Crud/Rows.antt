-- ===== src/Crud/Rows.antt =====
-- What a versioned UPDATE leaves of a table: a row that it meets is replaced by one of the next
-- version.
use metap.Prelude.{
  ℕ, ◌+◌, Bool, true, false, none, some, List, [], ◌∷◌, ◌++◌, String, ◌≡◌, refl, ◌==◌, ◌&&◌, eq_iff,
  arith, if◌then◌else◌,
}
use metap.Crud.Store.{Row, is_at, is_live, find_row, update_rows}

-- Is this the address of the record?
abbrev pub same_key : String → String → String → String → String → String → Bool
same_key table id tenant table' id' tenant' = table == table' && id == id' && tenant == tenant'

-- The replacement has the next version and the same address.
pub record IsNext (g : Row → Row) : Type 0 where
  pub version : (r : Row) → (g r).version ≡ r.version + 1
  pub table : (r : Row) → (g r).table ≡ r.table
  pub id : (r : Row) → (g r).id ≡ r.id
  pub tenant_id : (r : Row) → (g r).tenant_id ≡ r.tenant_id

pub found_live :
    (table id tenant : String) (rs : List Row) (old : Row)
    → find_row (is_live table id tenant) rs ≡ some old
    → old.deleted ≡ false
unfolding find_row
found_live table id tenant [] old h = cc
found_live table id tenant (r ∷ rs) old h = ground (arith, found_live table id tenant rs old)

pub found_version :
    (table id tenant : String) (v : ℕ) (rs : List Row) (old : Row)
    → find_row (is_at table id tenant v) rs ≡ some old
    → old.version ≡ v
unfolding find_row
found_version table id tenant v [] old h = cc
found_version table id tenant v (r ∷ rs) old h =
    ground (arith, found_version table id tenant v rs old)

-- A row that is appended is the one that is found, if none was.
pub find_row-append :
    (hit : Row → Bool) (rs : List Row) (r : Row)
    → find_row hit rs ≡ none
    → hit r ≡ true
    → find_row hit (rs ++ r ∷ []) ≡ some r
unfolding find_row
find_row-append hit [] r h at = ground (arith, at)
find_row-append hit (x ∷ rs) r h at = ground (arith, find_row-append hit rs r)

pub is_live_self : (r : Row) → r.deleted ≡ false → is_live r.table r.id r.tenant_id r ≡ true
is_live_self r h =
    ground (arith, h, eq_iff r.table r.table, eq_iff r.id r.id, eq_iff r.tenant_id r.tenant_id)

pub found_live_at :
    (table id tenant : String) (v : ℕ) (rs : List Row) (old : Row)
    → find_row (is_at table id tenant v) rs ≡ some old
    → old.deleted ≡ false
unfolding find_row
found_live_at table id tenant v [] old h = cc
found_live_at table id tenant v (r ∷ rs) old h =
    ground (arith, found_live_at table id tenant v rs old)

module _ (table id tenant : String) (v : ℕ) (g : Row → Row) (n : IsNext g) where
  -- After it no live record is at the version.
  pub no_row_left :
      (rs : List Row)
      → find_row (is_at table id tenant v) (update_rows (is_at table id tenant v) g rs) ≡ none
  unfolding find_row update_rows
  no_row_left [] = refl
  no_row_left (r ∷ rs) = ground (arith, n.version r, no_row_left rs)

  -- The record that was live at the version is found in its next form, if it is live.
  pub row_updated :
      (rs : List Row) (old : Row)
      → find_row (is_live table id tenant) rs ≡ some old
      → old.version ≡ v
      → (g old).deleted ≡ false
      → find_row (is_live table id tenant) (update_rows (is_at table id tenant v) g rs)
        ≡ some (g old)
  unfolding find_row update_rows
  row_updated [] old h k d = cc
  row_updated (r ∷ rs) old h k d =
      ground (arith, n.table r, n.id r, n.tenant_id r, row_updated rs old)

  -- A row of this address does not have another one.
  not_other :
      (table' id' tenant' : String) (r : Row)
      → same_key table id tenant table' id' tenant' ≡ false
      → is_at table id tenant v r ≡ true
      → is_live table' id' tenant' r ≡ false
  not_other table' id' tenant' r h at =
      ground (arith, eq_iff r.table table, eq_iff r.id id, eq_iff r.tenant_id tenant)

  next_is_live :
      (table' id' tenant' : String) (r : Row)
      → is_live table' id' tenant' r ≡ false
      → r.deleted ≡ false
      → is_live table' id' tenant' (g r) ≡ false
  next_is_live table' id' tenant' r h d = rw (n.table r, n.id r, n.tenant_id r) (ground arith)

  is_at-deleted : (r : Row) → is_at table id tenant v r ≡ true → r.deleted ≡ false
  is_at-deleted r h = ground arith

  -- Every other address is as it was.
  pub other_row :
      (table' id' tenant' : String) (rs : List Row)
      → same_key table id tenant table' id' tenant' ≡ false
      → find_row (is_live table' id' tenant') (update_rows (is_at table id tenant v) g rs)
        ≡ find_row (is_live table' id' tenant') rs
  unfolding find_row update_rows
  other_row table' id' tenant' [] h = refl
  other_row table' id' tenant' (r ∷ rs) h =
      split (is_at table id tenant v r) refl (other_row table' id' tenant' rs h)
    where
      split :
          (b : Bool)
          → is_at table id tenant v r ≡ b
          → find_row (is_live table' id' tenant') (update_rows (is_at table id tenant v) g rs)
            ≡ find_row (is_live table' id' tenant') rs
          → find_row (is_live table' id' tenant') (
              if b
              then g r ∷ update_rows (is_at table id tenant v) g rs
              else r ∷ update_rows (is_at table id tenant v) g rs)
            ≡ find_row (is_live table' id' tenant') (r ∷ rs)
      split true at rest =
          let here = not_other table' id' tenant' r h at in
          rw (here, next_is_live table' id' tenant' r here (is_at-deleted r at)) rest
      split false at rest = rw rest
