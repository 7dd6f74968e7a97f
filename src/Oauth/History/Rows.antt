-- ===== src/Oauth/History/Rows.antt =====
-- Tests that every row of a table of go/oauthserver passes, and the uniqueness of a key.
use metap.Prelude.{
  ◌&&◌, ℕ, zero, suc, Bool, true, false, List, [], ◌∷◌, ◌++◌, String, ◌≡◌, refl, ◌==◌, any, all,
  keep, eq_iff, arith, Bool-cases, inl, inr, ◌+◌, ltb,
}
use metap.Oauth.Db.{update_where}
use metap.Oauth.Cleanup.{delete_batch, rows_affected, delete_in_batches, left_over}

module _ {ℓ} {A : Type ℓ} (p : A → Bool) where
  pub all-append_one :
      (x : A) (xs : List A) → all p xs ≡ true → p x ≡ true → all p (xs ++ x ∷ []) ≡ true
  all-append_one x [] h k = ground arith
  all-append_one x (y ∷ ys) h k = ground (arith, all-append_one x ys)

  pub all-update_where :
      (q : A → Bool) (g : A → A) (xs : List A)
      → ((x : A) → p x ≡ true → p (g x) ≡ true)
      → all p xs ≡ true
      → all p (update_where q g xs) ≡ true
  all-update_where q g [] kept h = refl
  all-update_where q g (x ∷ xs) kept h = ground (arith, kept x, all-update_where q g xs kept)

  pub all-keep : (q : A → Bool) (xs : List A) → all p xs ≡ true → all p (keep q xs) ≡ true
  all-keep q [] h = refl
  all-keep q (x ∷ xs) h = ground (arith, all-keep q xs)

  pub all-delete_batch :
      (n : ℕ) (q : A → Bool) (xs : List A) → all p xs ≡ true → all p (delete_batch n q xs) ≡ true
  unfolding delete_batch
  all-delete_batch zero q xs h = h
  all-delete_batch (suc n) q [] h = refl
  all-delete_batch (suc n) q (x ∷ xs) h =
      ground (arith, all-delete_batch n q xs, all-delete_batch (suc n) q xs)

  any-delete_batch :
      (n : ℕ) (q : A → Bool) (xs : List A) → any p xs ≡ false → any p (delete_batch n q xs) ≡ false
  unfolding delete_batch
  any-delete_batch zero q xs h = h
  any-delete_batch (suc n) q [] h = refl
  any-delete_batch (suc n) q (x ∷ xs) h =
      ground (arith, any-delete_batch n q xs, any-delete_batch (suc n) q xs)

-- No two rows have the same key.
abbrev pub IsUnique {ℓ} : {A : Type ℓ} → (A → String) → List A → Type 0
IsUnique key [] = Unit {0}
IsUnique key (x ∷ xs) = (any (λ y. key y == key x) xs ≡ false) × IsUnique key xs

module _ {ℓ} {A : Type ℓ} (key : A → String) where
  any-append_one :
      (p : A → Bool) (x : A) (xs : List A)
      → any p xs ≡ false
      → p x ≡ false
      → any p (xs ++ x ∷ []) ≡ false
  any-append_one p x [] h k = ground arith
  any-append_one p x (y ∷ ys) h k = ground (arith, any-append_one p x ys)

  pub append_one-IsUnique :
      (x : A) (xs : List A)
      → any (λ y. key y == key x) xs ≡ false
      → IsUnique key xs
      → IsUnique key (xs ++ x ∷ [])
  append_one-IsUnique x [] h u = (refl, tt)
  append_one-IsUnique x (y ∷ ys) h u = (
    any-append_one (λ z. key z == key y) x ys u.0
        (ground (arith, eq_iff (key x) (key y), eq_iff (key y) (key x))),
    append_one-IsUnique x ys (ground arith) u.1,
  )

  module _ (q : A → Bool) (g : A → A) (same : (x : A) → key (g x) ≡ key x) where
    pub any-update_where :
        (k : String) (xs : List A)
        → any (λ y. key y == k) (update_where q g xs) ≡ any (λ y. key y == k) xs
    any-update_where k [] = refl
    any-update_where k (x ∷ xs) = ground (arith, same x, any-update_where k xs)

    pub update_where-IsUnique : (xs : List A) → IsUnique key xs → IsUnique key (update_where q g xs)
    update_where-IsUnique [] u = tt
    update_where-IsUnique (x ∷ xs) u = elim (Bool-cases (q x)) [
      | inl hit ↦
          rw (hit, same x) (rw (any-update_where (key x) xs) u.0, update_where-IsUnique xs u.1)
      | inr miss ↦ rw miss (rw (any-update_where (key x) xs) u.0, update_where-IsUnique xs u.1)
    ]

  pub delete_batch-IsUnique :
      (n : ℕ) (q : A → Bool) (xs : List A) → IsUnique key xs → IsUnique key (delete_batch n q xs)
  unfolding delete_batch
  delete_batch-IsUnique zero q xs u = u
  delete_batch-IsUnique (suc n) q [] u = tt
  delete_batch-IsUnique (suc n) q (x ∷ xs) u = elim (Bool-cases (q x)) [
    | inl hit ↦ rw hit (delete_batch-IsUnique n q xs u.1)
    | inr miss ↦ rw miss (
      any-delete_batch (λ y. key y == key x) (suc n) q xs u.0,
      delete_batch-IsUnique (suc n) q xs u.1,
    )
  ]

module _ {ℓ} {A : Type ℓ} where
  pub all-delete_in_batches :
      (p : A → Bool) (fuel : ℕ) (up : ℕ → Bool) (holds : List A → Bool) (batch : ℕ) (q : A → Bool)
      (k total : ℕ) (origin rows : List A)
      → all p origin ≡ true
      → all p rows ≡ true
      → all p (left_over origin (delete_in_batches up holds fuel batch q k total rows)) ≡ true
  unfolding delete_in_batches
  all-delete_in_batches p zero up holds batch q k total origin rows o h = o
  all-delete_in_batches p (suc fuel) up holds batch q k total origin rows o h =
      let left = all-delete_batch p batch q rows h in
      let again =
        all-delete_in_batches p fuel up holds batch q (suc k) (total + rows_affected batch q rows)
          origin (delete_batch batch q rows) o left in
      elim (Bool-cases (up k && holds (delete_batch batch q rows))) [
        | inr down ↦ rw down h
        | inl fine ↦ elim (Bool-cases (ltb (rows_affected batch q rows) batch)) [
          | inl short ↦ rw (fine, short) left
          | inr full ↦ rw (fine, full) again
        ]
      ]

  pub delete_in_batches-IsUnique :
      (key : A → String) (fuel : ℕ) (up : ℕ → Bool) (holds : List A → Bool) (batch : ℕ)
      (q : A → Bool) (k total : ℕ) (origin rows : List A)
      → IsUnique key origin
      → IsUnique key rows
      → IsUnique key (left_over origin (delete_in_batches up holds fuel batch q k total rows))
  unfolding delete_in_batches
  delete_in_batches-IsUnique key zero up holds batch q k total origin rows o u = o
  delete_in_batches-IsUnique key (suc fuel) up holds batch q k total origin rows o u =
      let left = delete_batch-IsUnique key batch q rows u in
      let again =
        delete_in_batches-IsUnique key fuel up holds batch q (suc k)
          (total + rows_affected batch q rows) origin (delete_batch batch q rows) o left in
      elim (Bool-cases (up k && holds (delete_batch batch q rows))) [
        | inr down ↦ rw down u
        | inl fine ↦ elim (Bool-cases (ltb (rows_affected batch q rows) batch)) [
          | inl short ↦ rw (fine, short) left
          | inr full ↦ rw (fine, full) again
        ]
      ]
