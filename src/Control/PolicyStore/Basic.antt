-- ===== src/Control/PolicyStore/Basic.antt =====
-- The basic editor's replacement of its own rows (SyncBasicPolicies of go/control/policystore.go).
use text.Mathlib.TextPositions.{eq_refl}
use metap.Prelude.{
  ℕ, suc, Bool, true, false, not, Option, none, some, ◌||◌, ◌==◌, sym, List, [], ◌∷◌, String, ◌≡◌,
  refl, ◌∙◌, keep, keep-append, arith,
}
use mathlib.Core.List.{append-nil}
use metap.Permission.Condition.{PolicyRow, PolicyCondition, allow}
use metap.Permission.Evaluate.{is_deny}
use metap.Control.PolicyStore.{PolicyDb, RoleActionGrant, is_basic, grant_rows, sync_basic_policies}

abbrev has_condition : Option PolicyCondition → Bool
has_condition none = false
has_condition (some c) = true

-- What the basic editor cannot express, or what is not its entity's.
abbrev pub is_special : String → String → PolicyRow → Bool
is_special tenant entity p =
    not (p.tenant_id == tenant)
    || not (p.entity == entity)
    || has_condition p.condition
    || not (p.field == "")
    || not (p.subject == "context")
    || is_deny p.effect

abbrev roles_for : Option String → List String
roles_for none = []
roles_for (some role) = role ∷ []

abbrev is_given : Option String → Bool
is_given none = false
is_given (some role) = true

-- The row of each grant.
abbrev pub rows_for :
    (ℕ → String) → ℕ → String → String → Option String → List RoleActionGrant → List PolicyRow
rows_for ids n tenant entity by [] = []
rows_for ids n tenant entity by (g ∷ gs) =
    record {
      id = ids n;
      tenant_id = tenant;
      entity = entity;
      action = g.action;
      field = "";
      subject = "context";
      roles = roles_for g.role;
      has_roles = is_given g.role;
      condition = none;
      created_by = by;
      effect = allow;
    }
    ∷ rows_for ids (suc n) tenant entity by gs

row_for :
    (n : ℕ) (ids : ℕ → String) (tenant entity : String) (by : Option String) (role : Option String)
    (action : String)
    → grant_rows ids n tenant entity by (record { role = role; action = action } ∷ [])
      ≡ rows_for ids n tenant entity by (record { role = role; action = action } ∷ [])
unfolding grant_rows
row_for n ids tenant entity by none action = refl
row_for n ids tenant entity by (some role) action = refl

module _ (tenant entity : String) where
  condition-cases :
      (p : PolicyRow) (o : Option PolicyCondition)
      → p.condition ≡ o
      → is_special tenant entity p ≡ not (is_basic tenant entity p)
  unfolding is_basic
  condition-cases p none h = ground (arith, h)
  condition-cases p (some c) h = ground (arith, h)

  special : (p : PolicyRow) → is_special tenant entity p ≡ not (is_basic tenant entity p)
  special p = condition-cases p p.condition refl

  keep-special :
      (ps : List PolicyRow)
      → keep (is_special tenant entity) ps ≡ keep (λ p. not (is_basic tenant entity p)) ps
  keep-special [] = refl
  keep-special (p ∷ ps) = ground (arith, special p, keep-special ps)

  keep-basic :
      (ps : List PolicyRow)
      → keep (λ p. not (is_special tenant entity p)) ps ≡ keep (is_basic tenant entity) ps
  keep-basic [] = refl
  keep-basic (p ∷ ps) = ground (arith, special p, keep-basic ps)

  -- The rows that the basic editor does not own.
  abbrev advanced : List PolicyRow → List PolicyRow
  advanced ps = keep (λ p. not (is_basic tenant entity p)) ps

  abbrev basic : List PolicyRow → List PolicyRow
  basic ps = keep (is_basic tenant entity) ps

  basic-advanced : (ps : List PolicyRow) → basic (advanced ps) ≡ []
  basic-advanced [] = refl
  basic-advanced (p ∷ ps) = ground (arith, basic-advanced ps)

  advanced-advanced : (ps : List PolicyRow) → advanced (advanced ps) ≡ advanced ps
  advanced-advanced [] = refl
  advanced-advanced (p ∷ ps) = ground (arith, advanced-advanced ps)

  module _ (ids : ℕ → String) (by : Option String) where
    basic-grant_rows :
        (n : ℕ) (gs : List RoleActionGrant)
        → basic (grant_rows ids n tenant entity by gs) ≡ grant_rows ids n tenant entity by gs
    unfolding grant_rows is_basic
    basic-grant_rows n [] = refl
    basic-grant_rows n (g ∷ gs) =
        ground (arith, eq_refl tenant, eq_refl entity, basic-grant_rows (suc n) gs)

    advanced-grant_rows :
        (n : ℕ) (gs : List RoleActionGrant) → advanced (grant_rows ids n tenant entity by gs) ≡ []
    unfolding grant_rows is_basic
    advanced-grant_rows n [] = refl
    advanced-grant_rows n (g ∷ gs) =
        ground (arith, eq_refl tenant, eq_refl entity, advanced-grant_rows (suc n) gs)

    grant_rows_lem :
        (n : ℕ) (gs : List RoleActionGrant)
        → grant_rows ids n tenant entity by gs ≡ rows_for ids n tenant entity by gs
    unfolding grant_rows
    grant_rows_lem n [] = refl
    grant_rows_lem n (g ∷ gs) =
        cc (row_for n ids tenant entity by g.role g.action, grant_rows_lem (suc n) gs)

    -- A sync that reaches the database keeps every row that is of another tenant or entity, has a
    -- condition, names a field, is about a record or denies; of the others it leaves exactly one row
    -- for each grant, in their order: for the role of the grant, or for everyone without one, on the
    -- whole entity, without a condition and allowing.
    pub sync_basic_policies_lem :
        (db : PolicyDb) (gs : List RoleActionGrant)
        → db.reachable ≡ true
        → (keep
              (is_special tenant entity)
              (sync_basic_policies db ids tenant entity gs by).0.policies
            ≡ keep (is_special tenant entity) db.policies)
          × (keep
                (λ p. not (is_special tenant entity p))
                (sync_basic_policies db ids tenant entity gs by).0.policies
              ≡ rows_for ids 0 tenant entity by gs)
    unfolding sync_basic_policies
    sync_basic_policies_lem db gs h = (
      keep-special (sync_basic_policies db ids tenant entity gs by).0.policies
          ∙ rw h (
              keep-append _ (advanced db.policies) _
              ∙ (rw (advanced-advanced db.policies, advanced-grant_rows 0 gs) (append-nil _)))
          ∙ sym (keep-special db.policies),
      keep-basic (sync_basic_policies db ids tenant entity gs by).0.policies
          ∙ rw h (
              keep-append _ (advanced db.policies) _
              ∙ (rw (basic-advanced db.policies, basic-grant_rows 0 gs)))
          ∙ grant_rows_lem 0 gs,
    )
