-- ===== src/Oauth/Cleanup.antt =====
-- go/oauthserver/cleanup.go. Rows that another transaction has locked are not modelled: a batch sees
-- every row; a LIMIT takes the first rows of the list, so that the list's order is the one in which
-- the statement meets the rows. The loop takes fuel; `Oauth.Cleanup.Sweeps` shows how much is enough.
pub mod Sweeps
use metap.Prelude.{
  ℕ, zero, suc, ◌+◌, ◌-◌, ◌*◌, Bool, true, false, not, Option, none, some, List, [], ◌∷◌, ◌||◌,
  ◌&&◌, String, ◌==◌, any, all, length, ltb, if◌then◌else◌,
}
use metap.Oauth.Db.{CodeRow, RefreshRow, PendingRow, Db}

abbrev pub cleanup_grace_period_seconds : ℕ
cleanup_grace_period_seconds = 24 * 3600

abbrev pub delete_batch_size : ℕ
delete_batch_size = 5000

-- What a loop of batches comes to: how many rows it deleted, and the rows that are left.
pub data Sweep {ℓ} (A : Type ℓ) : Type ℓ where
  swept : ℕ → List A → Sweep A
  failed : ℕ → List A → Sweep A
  out_of_fuel : Sweep A

module _ {ℓ} {A : Type ℓ} where
  -- DELETE ... WHERE id IN (SELECT id ... WHERE p LIMIT n)
  unfoldable pub delete_batch : ℕ → (A → Bool) → List A → List A
  delete_batch zero p rows = rows
  delete_batch (suc n) p [] = []
  delete_batch (suc n) p (r ∷ rs) =
      let deleted = delete_batch n p rs in
      let kept = r ∷ delete_batch (suc n) p rs in if p r then deleted else kept

  -- RowsAffected of the same statement.
  unfoldable pub rows_affected : ℕ → (A → Bool) → List A → ℕ
  rows_affected zero p rows = 0
  rows_affected (suc n) p [] = 0
  rows_affected (suc n) p (r ∷ rs) =
      let deleted = suc (rows_affected n p rs) in
      let kept = rows_affected (suc n) p rs in if p r then deleted else kept

  -- `up k` tells whether the statement of the k-th batch succeeds, and `holds` whether a table meets
  -- its foreign keys; a statement that would leave one that does not is an error.
  unfoldable pub delete_in_batches :
      (ℕ → Bool) → (List A → Bool) → ℕ → ℕ → (A → Bool) → ℕ → ℕ → List A → Sweep A
  unfolding delete_batch rows_affected
  delete_in_batches up holds zero batch p k total rows = out_of_fuel
  delete_in_batches up holds (suc fuel) batch p k total rows =
      let n = rows_affected batch p rows in
      let left = delete_batch batch p rows in
      let again = delete_in_batches up holds fuel batch p (suc k) (total + n) left in
      if not (up k && holds left)
      then failed total rows
      else if ltb n batch
      then swept (total + n) left
      else again

  unfoldable pub sweep_all : (ℕ → Bool) → (List A → Bool) → ℕ → (A → Bool) → List A → Sweep A
  unfolding delete_in_batches
  sweep_all up holds batch p rows = delete_in_batches up holds (suc (length rows)) batch p 0 0 rows

  abbrev pub left_over : List A → Sweep A → List A
  left_over rows (swept _ left) = left
  left_over rows (failed _ left) = left
  left_over rows out_of_fuel = rows

  abbrev pub deleted_of : Sweep A → Option ℕ
  deleted_of (swept n _) = some n
  deleted_of (failed _ _) = none
  deleted_of out_of_fuel = none

abbrev pub expired_code : ℕ → CodeRow → Bool
expired_code cutoff r = ltb r.expires_at cutoff

abbrev before : ℕ → Option ℕ → Bool
before cutoff none = false
before cutoff (some t) = ltb t cutoff

abbrev pub expired_refresh : ℕ → RefreshRow → Bool
expired_refresh cutoff r = ltb r.expires_at cutoff || before cutoff r.revoked_at

abbrev pub expired_pending : ℕ → PendingRow → Bool
expired_pending cutoff r = ltb r.expires_at cutoff

-- No table refers to the codes or to the pending authorizations.
abbrev pub unreferenced {ℓ} : {A : Type ℓ} → List A → Bool
unreferenced rows = true

abbrev is_stored : List RefreshRow → Option String → Bool
is_stored rows none = true
is_stored rows (some id) = any (λ (r : RefreshRow). r.id == id) rows

-- replaced_by REFERENCES oauth_refresh_tokens (id)
unfoldable pub successors_stored : List RefreshRow → Bool
successors_stored rows = all (λ (r : RefreshRow). is_stored rows r.replaced_by) rows

pub record CleanupCounts : Type 0 where
  pub authorization_codes_deleted : ℕ
  pub refresh_tokens_deleted : ℕ
  pub pending_authorizations_deleted : ℕ

-- The three loops; an error ends the call, and what was deleted before it stays deleted.
unfoldable sweep_pendings : (ℕ → Bool) → ℕ → ℕ → ℕ → ℕ → Db → Option CleanupCounts × Db
sweep_pendings up batch cutoff codes tokens db =
    let s = sweep_all up unreferenced batch (expired_pending cutoff) db.pendings in
    (
      elim (deleted_of s) [
        | none ↦ none
        | some n ↦ some (record {
          authorization_codes_deleted = codes;
          refresh_tokens_deleted = tokens;
          pending_authorizations_deleted = n;
        })
      ],
      record db { pendings = left_over db.pendings s },
    )

unfoldable sweep_refreshes : (ℕ → Bool) → (ℕ → Bool) → ℕ → ℕ → ℕ → Db → Option CleanupCounts × Db
unfolding sweep_pendings successors_stored
sweep_refreshes up_tokens up_pendings batch cutoff codes db =
    let s = sweep_all up_tokens successors_stored batch (expired_refresh cutoff) db.refreshes in
    let next = record db { refreshes = left_over db.refreshes s } in
    elim (deleted_of s) [
      | none ↦ (none, next)
      | some n ↦ sweep_pendings up_pendings batch cutoff codes n next
    ]

-- The lower bound of the batch size: `batchSize < 1` becomes 1.
abbrev pub at_least_one : ℕ → ℕ
at_least_one zero = 1
at_least_one (suc n) = suc n

unfoldable pub delete_expired_in_batches :
    (ℕ → Bool) → (ℕ → Bool) → (ℕ → Bool) → ℕ → ℕ → Db → Option CleanupCounts × Db
unfolding sweep_refreshes
delete_expired_in_batches up_codes up_tokens up_pendings now batch_size db =
    let batch = at_least_one batch_size in
    let cutoff = now - cleanup_grace_period_seconds in
    let s = sweep_all up_codes unreferenced batch (expired_code cutoff) db.codes in
    let next = record db { codes = left_over db.codes s } in
    elim (deleted_of s) [
      | none ↦ (none, next)
      | some n ↦ sweep_refreshes up_tokens up_pendings batch cutoff n next
    ]

unfoldable pub delete_expired :
    (ℕ → Bool) → (ℕ → Bool) → (ℕ → Bool) → ℕ → Db → Option CleanupCounts × Db
unfolding delete_expired_in_batches
delete_expired up_codes up_tokens up_pendings now db =
    delete_expired_in_batches up_codes up_tokens up_pendings now delete_batch_size db
