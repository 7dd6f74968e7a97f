-- ===== src/Oauth/History/Tables.antt =====
-- What the statements on a table keep: the uniqueness of a key, and a test that every row passes.
use metap.Prelude.{
  Bool, true, false, not, none, some, List, [], ◌∷◌, ◌++◌, String, ◌≡◌, refl, ◌==◌, ◌||◌, any, all,
  eq_iff, arith, if◌then◌else◌, Bool-cases, inl, inr, ap, ◌∙◌,
}
use metap.Oauth.Db.{find, update_where}
use metap.Oauth.History.Rows.{any-update_where, IsUnique}

-- A row under the key `k` is spent: it passes the test `spent`.
abbrev pub or_other {ℓ} : {A : Type ℓ} → (A → String) → String → (A → Bool) → A → Bool
or_other key k spent r = not (key r == k) || spent r

module _ {ℓ} {A : Type ℓ} (key : A → String) (k : String) (spent : A → Bool) where
  -- No row has the key.
  absent : (xs : List A) → any (λ y. key y == k) xs ≡ false → all (or_other key k spent) xs ≡ true
  absent [] h = refl
  absent (x ∷ xs) h = ground (arith, absent xs)

  found_present :
      (q : A → Bool) (r : A) (xs : List A)
      → ((x : A) → q x ≡ true → key x ≡ k)
      → find q xs ≡ some r
      → any (λ y. key y == k) xs ≡ true
  found_present q r [] has h = cc
  found_present q r (x ∷ xs) has h =
      ground (arith, has x, eq_iff (key x) k, found_present q r xs has)

  -- When every row of the key is spent, a search for an unspent one finds none.
  pub find-spent :
      (q : A → Bool) (xs : List A)
      → ((x : A) → q x ≡ true → (key x ≡ k) × (spent x ≡ false))
      → all (or_other key k spent) xs ≡ true
      → find q xs ≡ none
  find-spent q [] has h = refl
  find-spent q (x ∷ xs) has h = ground (arith, has x, eq_iff (key x) k, find-spent q xs has)

  -- An update that spends the row that is found under the key spends all of the key, which is unique.
  pub spend_found :
      (find_p q : A → Bool) (g : A → A) (r : A) (xs : List A)
      → ((x : A) → find_p x ≡ true → key x ≡ k)
      → ((x : A) → key (g x) ≡ key x)
      → ((x : A) → spent (g x) ≡ true)
      → IsUnique key xs
      → find find_p xs ≡ some r
      → q r ≡ true
      → all (or_other key k spent) (update_where q g xs) ≡ true
  spend_found find_p q g r [] has same spends u h hit = cc
  spend_found find_p q g r (x ∷ xs) has same spends u h hit = elim (Bool-cases (find_p x)) [
    | inl here ↦
        let e : x ≡ r = ground (arith, here) in
        let none_else : any (λ y. key y == k) xs ≡ false = rw (← has x here) u.0 in
        let rest = absent (update_where q g xs) (any-update_where key q g same k xs ∙ none_else) in
        rw (ap q e ∙ hit) (ground (arith, spends x, rest))
    | inr not_here ↦
        let later : find find_p xs ≡ some r = ground (arith, not_here) in
        let present = found_present find_p r xs has later in
        let rest = spend_found find_p q g r xs has same spends u.1 later hit in
        ground (arith, same x, present, u.0, eq_iff (key x) k, rest, spends x)
  ]

module _ {ℓ} {A : Type ℓ} (q : A → Bool) where
  pub found_passes : (r : A) (xs : List A) → find q xs ≡ some r → q r ≡ true
  found_passes r [] h = cc
  found_passes r (x ∷ xs) h = ground (arith, found_passes r xs)

  pub found_satisfies :
      (t : A → Bool) (r : A) (xs : List A) → all t xs ≡ true → find q xs ≡ some r → t r ≡ true
  found_satisfies t r [] a h = cc
  found_satisfies t r (x ∷ xs) a h = ground (arith, found_satisfies t r xs)

  pub find-append : (r : A) (xs ys : List A) → find q xs ≡ some r → find q (xs ++ ys) ≡ some r
  find-append r [] ys h = cc
  find-append r (x ∷ xs) ys h = ground (arith, find-append r xs ys)

module _ {ℓ} {A : Type ℓ} (p q : A → Bool) (g : A → A) (same : (x : A) → p (g x) ≡ p x) where
  pub find-update_where :
      (r : A) (xs : List A)
      → find p xs ≡ some r
      → find p (update_where q g xs) ≡ some (if q r then g r else r)
  find-update_where r [] h = cc
  find-update_where r (x ∷ xs) h = elim (Bool-cases (p x)) [
    | inl here ↦ let e : x ≡ r = ground (arith, here) in rw (← e) (ground (arith, here, same x))
    | inr not_here ↦
        let later : find p xs ≡ some r = ground (arith, not_here) in
        ground (arith, not_here, same x, find-update_where r xs later)
  ]

module _ {ℓ} {A : Type ℓ} (key : A → String) (k : String) (spent p : A → Bool) where
  -- A spent row that is found under a unique key is the only one of the key.
  pub all_found :
      (r : A) (xs : List A)
      → ((x : A) → p x ≡ true → key x ≡ k)
      → IsUnique key xs
      → find p xs ≡ some r
      → spent r ≡ true
      → all (or_other key k spent) xs ≡ true
  all_found r [] has u h dead = cc
  all_found r (x ∷ xs) has u h dead = elim (Bool-cases (p x)) [
    | inl here ↦
        let e : x ≡ r = ground (arith, here) in
        let none_else : any (λ y. key y == k) xs ≡ false = rw (← has x here) u.0 in
        ground (arith, absent key k spent xs none_else, ap spent e)
    | inr not_here ↦
        let later : find p xs ≡ some r = ground (arith, not_here) in
        let present = found_present key k spent p r xs has later in
        ground (arith, present, u.0, eq_iff (key x) k, all_found r xs has u.1 later dead)
  ]
