-- ===== src/Oauth/Cleanup/Sweeps.antt =====
-- The loop of batches in go/oauthserver/cleanup.go: its end, and what it leaves of a table.
use metap.Prelude.{
  ◌&&◌, Option-cases, ℕ, zero, suc, ◌+◌, ◌≤◌, ◌<◌, Bool, not, List, [], ◌∷◌, ◌≡◌, ◌≢◌, refl, keep,
  length, ltb, arith, if◌then◌else◌, Bool-cases, inl, inr, some, ◌-◌, sym, ◌∙◌,
}
use metap.Oauth.Db.{Db}
use metap.Oauth.Cleanup.{
  Sweep, swept, failed, deleted_of, out_of_fuel, CleanupCounts, unreferenced, successors_stored,
  delete_batch, rows_affected, delete_in_batches, left_over, sweep_all, at_least_one,
  delete_expired_in_batches, sweep_refreshes, sweep_pendings, cleanup_grace_period_seconds,
  expired_code, expired_refresh, expired_pending,
}

at_least_one-pos : (n : ℕ) → 0 < at_least_one n
at_least_one-pos zero = omega arith
at_least_one-pos (suc n) = omega arith

module _ {ℓ} {A : Type ℓ} where
  -- How many rows pass the test.
  abbrev pub count : (A → Bool) → List A → ℕ
  count p [] = 0
  count p (r ∷ rs) = let n = count p rs in if p r then suc n else n

  count-le-length : (p : A → Bool) (rows : List A) → count p rows ≤ length rows
  count-le-length p [] = omega arith
  count-le-length p (r ∷ rs) = ground (arith, count-le-length p rs)

  affected-le : (n : ℕ) (p : A → Bool) (rows : List A) → rows_affected n p rows ≤ n
  unfolding rows_affected
  affected-le zero p rows = omega arith
  affected-le (suc n) p [] = omega arith
  affected-le (suc n) p (r ∷ rs) = ground (arith, affected-le n p rs, affected-le (suc n) p rs)

  -- What a batch deletes and what it leaves.
  count-delete_batch :
      (n : ℕ) (p : A → Bool) (rows : List A)
      → count p (delete_batch n p rows) + rows_affected n p rows ≡ count p rows
  unfolding delete_batch rows_affected
  count-delete_batch zero p rows = omega arith
  count-delete_batch (suc n) p [] = refl
  count-delete_batch (suc n) p (r ∷ rs) =
      ground (arith, count-delete_batch n p rs, count-delete_batch (suc n) p rs)

  keep-delete_batch :
      (n : ℕ) (p : A → Bool) (rows : List A)
      → keep (λ r. not (p r)) (delete_batch n p rows) ≡ keep (λ r. not (p r)) rows
  unfolding delete_batch
  keep-delete_batch zero p rows = refl
  keep-delete_batch (suc n) p [] = refl
  keep-delete_batch (suc n) p (r ∷ rs) =
      ground (arith, keep-delete_batch n p rs, keep-delete_batch (suc n) p rs)

  keep_all : (p : A → Bool) (rows : List A) → count p rows ≡ 0 → keep (λ r. not (p r)) rows ≡ rows
  keep_all p [] h = refl
  keep_all p (r ∷ rs) h = ground (arith, keep_all p rs)

  -- A batch that is not full has deleted every expired row.
  short_batch :
      (n : ℕ) (p : A → Bool) (rows : List A)
      → rows_affected n p rows < n
      → count p (delete_batch n p rows) ≡ 0
  unfolding delete_batch rows_affected
  short_batch zero p rows h = absurd (omega arith)
  short_batch (suc n) p [] h = refl
  short_batch (suc n) p (r ∷ rs) h = ground (arith, short_batch n p rs, short_batch (suc n) p rs)

  module _ (up : ℕ → Bool) (holds : List A → Bool) where
    -- Whatever the database answers, no row is deleted that is not expired.
    keep-delete_in_batches :
        (fuel batch : ℕ) (p : A → Bool) (k total : ℕ) (origin rows : List A)
        → keep (λ r. not (p r)) origin ≡ keep (λ r. not (p r)) rows
        → keep
            (λ r. not (p r))
            (left_over origin (delete_in_batches up holds fuel batch p k total rows))
          ≡ keep (λ r. not (p r)) origin
    unfolding delete_in_batches
    keep-delete_in_batches zero batch p k total origin rows same = refl
    keep-delete_in_batches (suc fuel) batch p k total origin rows same =
        let kept = keep-delete_batch batch p rows in
        elim (Bool-cases (up k && holds (delete_batch batch p rows))) [
          | inr down ↦ rw down (sym same)
          | inl fine ↦ elim (Bool-cases (ltb (rows_affected batch p rows) batch)) [
            | inl short ↦ rw (fine, short) (kept ∙ sym same)
            | inr full ↦
                rw (fine, full)
                  (keep-delete_in_batches fuel batch p (suc k) (total + rows_affected batch p rows)
                    origin (delete_batch batch p rows) (same ∙ sym kept))
          ]
        ]

    -- Enough fuel is one more than the expired rows, whatever the database answers.
    delete_in_batches-ne-out_of_fuel :
        (fuel batch : ℕ) (p : A → Bool) (k total : ℕ) (rows : List A)
        → 0 < batch
        → count p rows < fuel
        → delete_in_batches up holds fuel batch p k total rows ≢ out_of_fuel
    unfolding delete_in_batches
    delete_in_batches-ne-out_of_fuel zero batch p k total rows pos h = absurd (omega arith)
    delete_in_batches-ne-out_of_fuel (suc fuel) batch p k total rows pos h =
        let n = rows_affected batch p rows in
        let left = delete_batch batch p rows in
        ground (
          arith,
          count-delete_batch batch p rows,
          delete_in_batches-ne-out_of_fuel fuel batch p (suc k) (total + n) left,
        )

    -- A loop that ends without an error has deleted every expired row, and counted it.
    delete_in_batches-swept :
        (fuel batch : ℕ) (p : A → Bool) (k total n : ℕ) (rows left : List A)
        → delete_in_batches up holds fuel batch p k total rows ≡ swept n left
        → (n ≡ total + count p rows) × (left ≡ keep (λ r. not (p r)) rows)
    unfolding delete_in_batches
    delete_in_batches-swept zero batch p k total n rows left h = cc
    delete_in_batches-swept (suc fuel) batch p k total n rows left h =
        let kept = keep-delete_batch batch p rows in
        let sum = count-delete_batch batch p rows in
        elim (Bool-cases (up k && holds (delete_batch batch p rows))) [
          | inr down ↦ absurd (ground (arith, down))
          | inl fine ↦ elim (Bool-cases (ltb (rows_affected batch p rows) batch)) [
            | inl short ↦
                let none_left = short_batch batch p rows (ground (arith, short)) in
                let e : swept (total + rows_affected batch p rows) (delete_batch batch p rows)
                    ≡ swept n left =
                  ground (arith, fine, short) in
                let m : total + rows_affected batch p rows ≡ n = cc in
                let l : delete_batch batch p rows ≡ left = cc in
                (omega (arith, m, sum, none_left), sym l ∙ sym (keep_all p _ none_left) ∙ kept)
            | inr full ↦
                let again : delete_in_batches up holds fuel batch p (suc k)
                      (total + rows_affected batch p rows) (delete_batch batch p rows)
                    ≡ swept n left =
                  ground (arith, fine, full) in
                let (counted, all_gone) =
                  delete_in_batches-swept fuel batch p (suc k) (total + rows_affected batch p rows)
                    n (delete_batch batch p rows) left again in
                (omega (arith, counted, sum), all_gone ∙ kept)
          ]
        ]

    -- The loop of batches ends: whatever the database answers to each batch, a violated foreign key
    -- included, one round more than there are rows is enough fuel. However it ends, it has deleted
    -- no row that is not expired, and the others are in their order.
    pub sweep_all_lem :
        (batch_size : ℕ) (p : A → Bool) (rows : List A)
        → (sweep_all up holds (at_least_one batch_size) p rows ≢ out_of_fuel)
          × (keep
                (λ r. not (p r))
                (left_over rows (sweep_all up holds (at_least_one batch_size) p rows))
              ≡ keep (λ r. not (p r)) rows)
    unfolding sweep_all
    sweep_all_lem batch_size p rows = (
      delete_in_batches-ne-out_of_fuel (suc (length rows)) (at_least_one batch_size) p 0 0 rows
          (at_least_one-pos batch_size) (omega (arith, count-le-length p rows)),
      keep-delete_in_batches (suc (length rows)) (at_least_one batch_size) p 0 0 rows rows refl,
    )

    -- A loop that ends without an error has deleted all that are, and counted them.
    sweep_all-swept :
        (batch_size : ℕ) (p : A → Bool) (rows : List A) (n : ℕ) (left : List A)
        → sweep_all up holds (at_least_one batch_size) p rows ≡ swept n left
        → (n ≡ count p rows) × (left ≡ keep (λ r. not (p r)) rows)
    unfolding sweep_all
    sweep_all-swept batch_size p rows n left h =
        let (counted, gone) =
          delete_in_batches-swept (suc (length rows)) (at_least_one batch_size) p 0 0 n rows left
            h in
        (omega (arith, counted), gone)

  swept_of :
      (rows : List A) (s : Sweep A) (n : ℕ) → deleted_of s ≡ some n → s ≡ swept n (left_over rows s)
  swept_of rows (swept m left) n h = cc
  swept_of rows (failed m left) n h = cc
  swept_of rows out_of_fuel n h = cc

  -- A sweep that has a count.
  counted :
      (up : ℕ → Bool) (holds : List A → Bool) (batch_size : ℕ) (p : A → Bool) (rows : List A)
      (n : ℕ)
      → deleted_of (sweep_all up holds (at_least_one batch_size) p rows) ≡ some n
      → (n ≡ count p rows)
        × (left_over rows (sweep_all up holds (at_least_one batch_size) p rows)
            ≡ keep (λ r. not (p r)) rows)
  counted up holds batch_size p rows n h =
      sweep_all-swept up holds batch_size p rows n _ (swept_of rows _ n h)

module _ (up_codes up_tokens up_pendings : ℕ → Bool) (now batch_size : ℕ) (db : Db)
    (counts : CleanupCounts) where
  -- A cleanup that returns its counts has deleted exactly the codes, the refresh tokens and the
  -- pending authorizations that have been expired (a token: or revoked) for longer than the grace
  -- period, and has counted them, whatever the batch size; it changes neither the clients nor the
  -- consents.
  pub delete_expired_in_batches-some :
      (delete_expired_in_batches up_codes up_tokens up_pendings now batch_size db).0 ≡ some counts
      → (counts ≡ record {
        authorization_codes_deleted =
            count (expired_code (now - cleanup_grace_period_seconds)) db.codes;
        refresh_tokens_deleted =
            count (expired_refresh (now - cleanup_grace_period_seconds)) db.refreshes;
        pending_authorizations_deleted =
            count (expired_pending (now - cleanup_grace_period_seconds)) db.pendings;
      })
        × ((delete_expired_in_batches up_codes up_tokens up_pendings now batch_size db).1
            ≡ record db {
              codes =
                  keep (λ r. not (expired_code (now - cleanup_grace_period_seconds) r)) db.codes;
              refreshes =
                  keep
                    (λ r. not (expired_refresh (now - cleanup_grace_period_seconds) r))
                    db.refreshes;
              pendings =
                  keep
                    (λ r. not (expired_pending (now - cleanup_grace_period_seconds) r))
                    db.pendings;
            })
  unfolding delete_expired_in_batches sweep_refreshes sweep_pendings
  delete_expired_in_batches-some h =
      let cutoff = now - cleanup_grace_period_seconds in
      let batch = at_least_one batch_size in
      let codes = sweep_all up_codes unreferenced batch (expired_code cutoff) db.codes in
      let tokens =
        sweep_all up_tokens successors_stored batch (expired_refresh cutoff) db.refreshes in
      let pendings =
        sweep_all up_pendings unreferenced batch (expired_pending cutoff) db.pendings in
      elim (Option-cases (deleted_of codes)) [
        | inl missing ↦ absurd (ground (arith, missing))
        | inr (n, some_codes) ↦ elim (Option-cases (deleted_of tokens)) [
          | inl missing ↦ absurd (ground (arith, some_codes, missing))
          | inr (m, some_tokens) ↦ elim (Option-cases (deleted_of pendings)) [
            | inl missing ↦ absurd (ground (arith, some_codes, some_tokens, missing))
            | inr (k, some_pendings) ↦
                let a =
                  counted up_codes unreferenced batch_size (expired_code cutoff) db.codes n
                    some_codes in
                let b =
                  counted up_tokens successors_stored batch_size (expired_refresh cutoff)
                    db.refreshes m some_tokens in
                let c =
                  counted up_pendings unreferenced batch_size (expired_pending cutoff) db.pendings k
                    some_pendings in
                (
                  ground (arith, some_codes, some_tokens, some_pendings, a.0, b.0, c.0),
                  ground (arith, some_codes, some_tokens, some_pendings, a.1, b.1, c.1),
                )
          ]
        ]
      ]
