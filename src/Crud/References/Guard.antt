-- ===== src/Crud/References/Guard.antt =====
-- What it means that the reference guard finds no record.
use metap.Prelude.{
  ◌⊎◌, inl, inr, ℕ, suc, Bool, true, false, not, Option, List, [], ◌∷◌, ◌++◌, String, ◌≡◌, refl,
  sym, ap, ◌∙◌, ◌==◌, ◌&&◌, ◌||◌, leb, length, any, any-append, keep, mem_text, eq_iff, arith,
  if◌then◌else◌,
}
use text.Mathlib.TextPositions.{eq_refl}
use metap.Metadata.Entity.{EntityDefinition}
use metap.Crud.Store.{Row}
use metap.Crud.References.{
  ReferencingField, ReferencingHit, max_referencing_hits, take, tables_of, insert_text, refers,
  is_blocking, hits_of, group_of, blocking_rows, find_hits, find_referencing_records,
  insert_by_name, sort_by_name, fields_of_entities, referencing_fields, fields_pointing_at,
}

append-nil_parts {ℓ} : {A : Type ℓ} (xs ys : List A) → xs ++ ys ≡ [] → (xs ≡ []) × (ys ≡ [])
append-nil_parts [] ys h = (refl, h)
append-nil_parts (x ∷ xs) ys h = cc

keep-nil {ℓ} : {A : Type ℓ} (p : A → Bool) (xs : List A) → keep p xs ≡ [] → any p xs ≡ false
keep-nil p [] h = refl
keep-nil p (x ∷ xs) h = ground (arith, keep-nil p xs)

any-keep {ℓ} :
    {A : Type ℓ} (p q : A → Bool) (xs : List A) → any p (keep q xs) ≡ any (λ x. q x && p x) xs
any-keep p q [] = refl
any-keep p q (x ∷ xs) = ground (arith, any-keep p q xs)

take-nil {ℓ} : {A : Type ℓ} (n : ℕ) (xs : List A) → take (suc n) xs ≡ [] → xs ≡ []
unfolding take
take-nil n [] h = refl
take-nil n (x ∷ xs) h = cc

mem_text-insert_text :
    (k s : String) (ts : List String) → mem_text k (insert_text s ts) ≡ (s == k || mem_text k ts)
unfolding insert_text
mem_text-insert_text k s [] = refl
mem_text-insert_text k s (t ∷ ts) = ground (arith, mem_text-insert_text k s ts)

mem_text-tables_of :
    (k : String) (refs : List ReferencingField)
    → mem_text k (tables_of refs) ≡ any (λ f. f.table == k) refs
unfolding tables_of
mem_text-tables_of k [] = refl
mem_text-tables_of k (f ∷ fs) = ground (
  arith,
  mem_text-tables_of k fs,
  mem_text-insert_text k f.table (tables_of fs),
  eq_iff f.table k,
)

module _ (parse_uuid : String → Option String) (tenant id : String) where
  -- The live row of another record of the tenant refers to the record through one of the fields, in
  -- the field's table.
  abbrev pub references : List ReferencingField → Row → Bool
  references refs r =
      r.tenant_id == tenant
      && not r.deleted
      && not (r.id == id)
      && any (λ f. f.table == r.table && refers parse_uuid tenant id f r) refs

  hits_of-nil :
      (fs : List ReferencingField) (rows : List Row)
      → hits_of parse_uuid tenant id fs rows ≡ []
      → (fs ≡ []) ⊎ (rows ≡ [])
  hits_of-nil [] rows h = inl refl
  hits_of-nil (f ∷ fs) [] h = inr refl
  hits_of-nil (f ∷ fs) (r ∷ rows) h = cc

  any-none_blocking :
      (table : String) (rows : List Row)
      → any (is_blocking parse_uuid tenant id table []) rows ≡ false
  unfolding is_blocking
  any-none_blocking table [] = refl
  any-none_blocking table (r ∷ rows) = ground (arith, any-none_blocking table rows)

  table_clear :
      (table : String) (refs : List ReferencingField) (rows : List Row)
      → hits_of parse_uuid tenant id
          (group_of parse_uuid tenant id table refs)
          (take max_referencing_hits (blocking_rows parse_uuid tenant id table refs rows))
        ≡ []
      → any (is_blocking parse_uuid tenant id table (group_of parse_uuid tenant id table refs)) rows
        ≡ false
  table_clear table refs rows h =
      elim (hits_of-nil (group_of parse_uuid tenant id table refs) _ h) [
        | inl e ↦
            ap (λ g. any (is_blocking parse_uuid tenant id table g) rows) e
            ∙ any-none_blocking table rows
        | inr e ↦
            keep-nil _ rows (take-nil 49 (blocking_rows parse_uuid tenant id table refs rows) e)
      ]

  find_hits-nil :
      (tables : List String) (refs : List ReferencingField) (rows : List Row)
      (hits : List ReferencingHit)
      → find_hits parse_uuid tenant id tables refs rows hits ≡ []
      → (hits ≡ [])
        × ((table : String)
            → mem_text table tables ≡ true
            → any
                (is_blocking parse_uuid tenant id table (group_of parse_uuid tenant id table refs))
                rows
              ≡ false)
  unfolding find_hits
  find_hits-nil [] refs rows hits h = (h, λ t m. cc)
  find_hits-nil (t ∷ ts) refs rows [] h =
      let (found, rest) = find_hits-nil ts refs rows _ h in
      (refl, λ table m. ground (arith, eq_iff t table, rest table, table_clear t refs rows found))
  find_hits-nil (t ∷ ts) refs rows (x ∷ xs) h = absurd (
      full (leb max_referencing_hits (length (x ∷ xs)))
        (λ k. (append-nil_parts (x ∷ xs) _ (find_hits-nil ts refs rows _ k).0).0) h)
    where
      full :
          (b : Bool) {rest : List ReferencingHit}
          → (rest ≡ [] → (x ∷ xs) ≡ [])
          → (if b then x ∷ xs else rest) ≡ []
          → ⊥
      full true k e = cc
      full false k e = let e' = k e in cc

  any-cons_false {ℓ} :
      {A : Type ℓ} (p : A → Bool) (x : A) (xs : List A)
      → any p (x ∷ xs) ≡ false
      → (p x ≡ false) × (any p xs ≡ false)
  any-cons_false p x xs h = ground arith

  any-and_false {ℓ} :
      {A : Type ℓ} (p q : A → Bool) (xs : List A)
      → any p xs ≡ false
      → any (λ x. p x && q x) xs ≡ false
  any-and_false p q [] h = refl
  any-and_false p q (x ∷ xs) h = ground (arith, any-and_false p q xs)

  -- One row refers to the record exactly if the query for its table returns it.
  row_clear :
      (refs : List ReferencingField) (r : Row)
      → (mem_text r.table (tables_of refs) ≡ true
          → is_blocking parse_uuid tenant id r.table (group_of parse_uuid tenant id r.table refs) r
            ≡ false)
      → references refs r ≡ false
  unfolding is_blocking
  row_clear refs r h = ground (
    arith,
    eq_refl r.table,
    mem_text-tables_of r.table refs,
    any-keep (λ f. refers parse_uuid tenant id f r) (λ f. f.table == r.table) refs,
    any-and_false (λ f. f.table == r.table) (λ f. refers parse_uuid tenant id f r) refs,
  )

  rows_clear :
      (refs : List ReferencingField) (rows : List Row)
      → ((table : String)
          → mem_text table (tables_of refs) ≡ true
          → any
              (is_blocking parse_uuid tenant id table (group_of parse_uuid tenant id table refs))
              rows
            ≡ false)
      → any (references refs) rows ≡ false
  rows_clear refs [] h = refl
  rows_clear refs (r ∷ rows) h =
      let blocks = λ (table : String).
        is_blocking parse_uuid tenant id table (group_of parse_uuid tenant id table refs) in
      let here = row_clear refs r (λ m. (any-cons_false (blocks r.table) r rows (h r.table m)).0) in
      let rest =
        rows_clear refs rows (λ table m. (any-cons_false (blocks table) r rows (h table m)).1) in
      rw (here, rest)

  -- When the guard finds no record, no live row of another record of the tenant refers to the record
  -- through one of the fields that the guard was given.
  pub find_referencing_records-nil :
      (refs : List ReferencingField) (rows : List Row)
      → find_referencing_records parse_uuid tenant id refs rows ≡ []
      → any (references refs) rows ≡ false
  unfolding find_referencing_records
  find_referencing_records-nil refs rows h =
      rows_clear refs rows (find_hits-nil (tables_of refs) refs rows [] h).1

-- The fields of a sorted registry are those of the registry.
any-insert_by_name :
    (p : ReferencingField → Bool) (target : String) (e : EntityDefinition)
    (es : List EntityDefinition)
    → any p (fields_of_entities target (insert_by_name e es))
      ≡ any p (fields_of_entities target (e ∷ es))
unfolding insert_by_name fields_of_entities
any-insert_by_name p target e [] = refl
any-insert_by_name p target e (d ∷ ds) = ground (
  arith,
  any-insert_by_name p target e ds,
  any-append p (fields_pointing_at target e e.fields) (fields_of_entities target ds),
  any-append p (fields_pointing_at target e e.fields) (fields_of_entities target (d ∷ ds)),
  any-append p (fields_pointing_at target d d.fields) (fields_of_entities target ds),
  any-append p (fields_pointing_at target d d.fields)
      (fields_of_entities target (insert_by_name e ds)),
)

pub any-referencing_fields :
    (p : ReferencingField → Bool) (registry : List EntityDefinition) (target : String)
    → any p (referencing_fields registry target) ≡ any p (fields_of_entities target registry)
unfolding referencing_fields sort_by_name fields_of_entities
any-referencing_fields p [] target = refl
any-referencing_fields p (e ∷ es) target =
    any-insert_by_name p target e (sort_by_name es)
    ∙ any-append p (fields_pointing_at target e e.fields)
        (fields_of_entities target (sort_by_name es))
    ∙ ap (λ b. any p (fields_pointing_at target e e.fields) || b)
        (any-referencing_fields p es target)
    ∙ sym (any-append p (fields_pointing_at target e e.fields) (fields_of_entities target es))

pub any-references :
    (parse_uuid : String → Option String) (tenant id target : String)
    (registry : List EntityDefinition) (rows : List Row)
    → any (references parse_uuid tenant id (referencing_fields registry target)) rows
      ≡ any (references parse_uuid tenant id (fields_of_entities target registry)) rows
any-references parse_uuid tenant id target registry [] = refl
any-references parse_uuid tenant id target registry (r ∷ rows) = rw (
  any-referencing_fields (λ f. f.table == r.table && refers parse_uuid tenant id f r) registry
      target,
  any-references parse_uuid tenant id target registry rows,
)
