-- ===== src/Crud/Tx.antt =====
-- The transactions of go/crud's writes: Router.Begin, the statements, which change the transaction's
-- own tables one after the other, and tx.Rollback or tx.Commit. A Commit that returns an error may
-- have been applied or not.
use metap.Prelude.{Bool, true, false, Option, none, some, ◌≡◌, ◌⊎◌, inl, inr, refl, if◌then◌else◌}
use metap.Crud.Store.{
  Db, Row, Begin, Response, done, refused, failed, refuse, begin, find_row, update_rows,
}

-- How Commit ends: without an error, or with one, the transaction being applied or not.
pub data CommitEnd : Type 0 where
  applied lost unconfirmed : CommitEnd

-- A result, or the way it stopped, and the tables as the statements have left them.
abbrev pub Tx {ℓ} : Type ℓ → Type ℓ
Tx A = Db → Response A × Db

abbrev continue {ℓ κ} : {A : Type ℓ} {B : Type κ} → (A → Tx B) → Response A × Db → Response B × Db
continue f (done a, db) = f a db
continue f (refused r, db) = (refused r, db)
continue f (failed, db) = (failed, db)

infixl 5 ◌>>=◌
abbrev pub ◌>>=◌ {ℓ κ} : {A : Type ℓ} {B : Type κ} → Tx A → (A → Tx B) → Tx B
(m >>= f) db = continue f (m db)

infixl 5 ◌>>◌
abbrev pub ◌>>◌ {ℓ κ} : {A : Type ℓ} {B : Type κ} → Tx A → Tx B → Tx B
m >> n = m >>= λ _. n

abbrev pub pure {ℓ} : {A : Type ℓ} → A → Tx A
pure a db = (done a, db)

-- A statement that succeeds or not.
unfoldable pub exec : Bool → (Db → Db) → Tx (Unit {0})
exec ok g db = if ok then (done tt, g db) else (failed, db)

abbrev returned : (Row → Bool) → (Row → Row) → Db → Option Row → Response Row × Db
returned hit g db none = (refuse 409 "version_conflict", db)
returned hit g db (some old) = (done (g old), record db { rows = update_rows hit g db.rows })

-- UPDATE ... WHERE ... RETURNING ...
unfoldable pub update_returning : Bool → (Row → Bool) → (Row → Row) → Tx Row
update_returning ok hit g db =
    let r = returned hit g db (find_row hit db.rows) in if ok then r else (failed, db)

-- `before` are the tables that the transaction began with.
unfoldable pub end_with {ℓ} : {A : Type ℓ} → CommitEnd → Db → Response A × Db → Response A × Db
end_with applied before (done a, db) = (done a, db)
end_with lost before (done a, db) = (failed, before)
end_with unconfirmed before (done a, db) = (failed, db)
end_with c before (refused r, db) = (refused r, before)
end_with c before (failed, db) = (failed, before)

abbrev within {ℓ} : {A : Type ℓ} → Response (Unit {0}) → Tx A → CommitEnd → Db → Response A × Db
within (done u) body c db = end_with c db (body db)
within (refused r) body c db = (refused r, db)
within failed body c db = (failed, db)

unfoldable pub in_transaction {ℓ} : {A : Type ℓ} → Begin → Tx A → CommitEnd → Db → Response A × Db
unfolding end_with
in_transaction b body c db = within (begin b) body c db

-- What comes after a statement, when all of it returns.
pub after_exec {ℓ} :
    {B : Type ℓ} (ok : Bool) (g : Db → Db) (n : Tx B) (db db' : Db) {b : B}
    → (exec ok g >> n) db ≡ (done b, db')
    → n (g db) ≡ (done b, db')
unfolding exec
after_exec true g n db db' h = h
after_exec false g n db db' h = cc

after_returned {ℓ} :
    {B : Type ℓ} (hit : Row → Bool) (g : Row → Row) (f : Row → Tx B) (db db' : Db) (o : Option Row)
    {b : B}
    → continue f (returned hit g db o) ≡ (done b, db')
    → (old : Row) × (o ≡ some old)
      × (f (g old) (record db { rows = update_rows hit g db.rows }) ≡ (done b, db'))
after_returned hit g f db db' none h = cc
after_returned hit g f db db' (some old) h = (old, refl, h)

pub after_returning {ℓ} :
    {B : Type ℓ} (ok : Bool) (hit : Row → Bool) (g : Row → Row) (f : Row → Tx B) (db db' : Db)
    {b : B}
    → (update_returning ok hit g >>= f) db ≡ (done b, db')
    → (old : Row) × (find_row hit db.rows ≡ some old)
      × (f (g old) (record db { rows = update_rows hit g db.rows }) ≡ (done b, db'))
unfolding update_returning
after_returning true hit g f db db' h = after_returned hit g f db db' (find_row hit db.rows) h
after_returning false hit g f db db' h = cc

end_with-cases {ℓ} :
    {A : Type ℓ} (c : CommitEnd) (before : Db) (r : Response A × Db)
    → ((end_with c before r).1 ≡ before) ⊎ ((a : A) × (r ≡ (done a, (end_with c before r).1)))
unfolding end_with
end_with-cases applied before (done a, db) = inr (a, refl)
end_with-cases lost before (done a, db) = inl refl
end_with-cases unconfirmed before (done a, db) = inr (a, refl)
end_with-cases c before (refused x, db) = inl refl
end_with-cases c before (failed, db) = inl refl

end_with-done {ℓ} :
    {A : Type ℓ} (c : CommitEnd) (before : Db) (r : Response A × Db) (db' : Db) (a : A)
    → end_with c before r ≡ (done a, db')
    → r ≡ (done a, db')
unfolding end_with
end_with-done applied before (done x, db) db' a h = h
end_with-done lost before (done x, db) db' a h = cc
end_with-done unconfirmed before (done x, db) db' a h = cc
end_with-done c before (refused x, db) db' a h = cc
end_with-done c before (failed, db) db' a h = cc

within-cases {ℓ} :
    {A : Type ℓ} (o : Response (Unit {0})) (body : Tx A) (c : CommitEnd) (db : Db)
    → ((within o body c db).1 ≡ db) ⊎ ((a : A) × (body db ≡ (done a, (within o body c db).1)))
within-cases (done u) body c db = end_with-cases c db (body db)
within-cases (refused x) body c db = inl refl
within-cases failed body c db = inl refl

-- A transaction that ends, however it does, leaves the tables as they were, or as its statements
-- left them after the last one had succeeded.
pub in_transaction-cases {ℓ} :
    {A : Type ℓ} (b : Begin) (body : Tx A) (c : CommitEnd) (db : Db)
    → ((in_transaction b body c db).1 ≡ db)
      ⊎ ((a : A) × (body db ≡ (done a, (in_transaction b body c db).1)))
unfolding in_transaction
in_transaction-cases b body c db = within-cases (begin b) body c db

within-done {ℓ} :
    {A : Type ℓ} (o : Response (Unit {0})) (body : Tx A) (c : CommitEnd) (db db' : Db) (a : A)
    → within o body c db ≡ (done a, db')
    → body db ≡ (done a, db')
within-done (done u) body c db db' a h = end_with-done c db (body db) db' a h
within-done (refused x) body c db db' a h = cc
within-done failed body c db db' a h = cc

-- One that returns a result leaves the latter.
pub in_transaction-done {ℓ} :
    {A : Type ℓ} (b : Begin) (body : Tx A) (c : CommitEnd) (db db' : Db) (a : A)
    → in_transaction b body c db ≡ (done a, db')
    → body db ≡ (done a, db')
unfolding in_transaction
in_transaction-done b body c db db' a h = within-done (begin b) body c db db' a h
