-- ===== src/Control/PolicyStore.antt =====
-- go/control/policystore.go: the policies table of one tenant's database and its queries. A list of
-- rows is the table in the order in which a scan returns it. `reachable` says whether Router.Begin
-- and the statement after it succeed; otherwise the query returns an error.
pub mod Basic
use metap.Prelude.{
  ℕ, suc, Bool, true, false, not, Option, none, some, List, [], ◌∷◌, ◌++◌, String, ◌==◌, ◌&&◌, keep,
  if◌then◌else◌,
}
use metap.Permission.Condition.{PolicyCondition, PolicyEffect, allow, PolicyRow}
use metap.Permission.Evaluate.{is_deny}

pub record PolicyDb : Type 0 where
  pub reachable : Bool
  pub policies : List PolicyRow

abbrev pub answer {ℓ} : {A : Type ℓ} → PolicyDb → A → Option A
answer db a = if db.reachable then some a else none

-- WHERE tenant_id = $1 AND entity = $2
abbrev pub of_entity : String → String → PolicyRow → Bool
of_entity tenant entity p = p.tenant_id == tenant && p.entity == entity

abbrev pub of_action : String → String → String → PolicyRow → Bool
of_action tenant entity action p = of_entity tenant entity p && p.action == action

unfoldable pub find_context_policies : PolicyDb → String → String → String → Option (List PolicyRow)
find_context_policies db tenant entity action = answer db (
    keep (λ p. of_action tenant entity action p && p.field == "" && p.subject == "context")
      db.policies)

unfoldable pub load_all_policies : PolicyDb → String → String → Option (List PolicyRow)
load_all_policies db tenant entity = answer db (keep (of_entity tenant entity) db.policies)

pub data PolicySubject : Type 0 where
  subject_context subject_record : PolicySubject

abbrev pub subject_name : PolicySubject → String
subject_name subject_context = "context"
subject_name subject_record = "record"

abbrev pub subject_or_context : Option PolicySubject → PolicySubject
subject_or_context none = subject_context
subject_or_context (some s) = s

-- An empty field is no field.
unfoldable pub find_explain_policies :
    PolicyDb → String → String → String → String → Option PolicySubject → Option (List PolicyRow)
find_explain_policies db tenant entity action field subject = answer db (
    keep
      (λ p.
        of_action tenant entity action p
        && (if field == ""
            then p.field == "" && p.subject == subject_name (subject_or_context subject)
            else p.field == field))
      db.policies)

unfoldable pub list_policies : PolicyDb → String → Option String → Option (List PolicyRow)
list_policies db tenant entity = answer db (
    keep (λ p. p.tenant_id == tenant && elim entity [ none ↦ true | some e ↦ p.entity == e ])
      db.policies)

-- What CreatePolicy inserts; the identifier is the database's.
pub record NewPolicy : Type 0 where
  pub entity : String
  pub action : String
  pub roles : List String
  pub has_roles : Bool
  pub condition : Option PolicyCondition
  pub created_by : Option String
  pub field : String
  pub subject : Option PolicySubject
  pub effect : PolicyEffect

abbrev stored : String → String → NewPolicy → PolicyRow
stored id tenant n = record {
  id = id;
  tenant_id = tenant;
  entity = n.entity;
  action = n.action;
  field = n.field;
  subject = subject_name (subject_or_context n.subject);
  roles = if n.has_roles then n.roles else [];
  has_roles = n.has_roles;
  condition = n.condition;
  created_by = n.created_by;
  effect = n.effect;
}

abbrev write : PolicyDb → List PolicyRow → PolicyDb
write db ps = record db { policies = ps }

unfoldable pub create_policy : PolicyDb → String → String → NewPolicy → PolicyDb × Option PolicyRow
create_policy db id tenant n =
    if db.reachable
    then (write db (db.policies ++ stored id tenant n ∷ []), some (stored id tenant n))
    else (db, none)

-- The flag says whether the call succeeded.
unfoldable pub delete_policy : PolicyDb → String → String → PolicyDb × Bool
delete_policy db tenant id =
    if db.reachable
    then (write db (keep (λ p. not (p.tenant_id == tenant && p.id == id)) db.policies), true)
    else (db, false)

-- A missing role is everyone.
pub record RoleActionGrant : Type 0 where
  pub role : Option String
  pub action : String

abbrev has_no_condition : Option PolicyCondition → Bool
has_no_condition none = true
has_no_condition (some _) = false

-- The rows that the basic editor owns.
unfoldable pub is_basic : String → String → PolicyRow → Bool
is_basic tenant entity p =
    of_entity tenant entity p
    && has_no_condition p.condition
    && p.field == ""
    && p.subject == "context"
    && not (is_deny p.effect)

abbrev granted : String → String → String → Option String → RoleActionGrant → PolicyRow
granted id tenant entity created_by g = record {
  id = id;
  tenant_id = tenant;
  entity = entity;
  action = g.action;
  field = "";
  subject = "context";
  roles = elim g.role [ none ↦ [] | some r ↦ r ∷ [] ];
  has_roles = elim g.role [ none ↦ false | some r ↦ true ];
  condition = none;
  created_by = created_by;
  effect = allow;
}

-- The rows that the grants insert; the n-th takes the n-th identifier.
unfoldable pub grant_rows :
    (ℕ → String) → ℕ → String → String → Option String → List RoleActionGrant → List PolicyRow
grant_rows ids n tenant entity by [] = []
grant_rows ids n tenant entity by (g ∷ gs) =
    granted (ids n) tenant entity by g ∷ grant_rows ids (suc n) tenant entity by gs

unfoldable pub sync_basic_policies :
    PolicyDb
    → (ℕ → String)
    → String
    → String
    → List RoleActionGrant
    → Option String
    → PolicyDb × Option (List PolicyRow)
unfolding is_basic
sync_basic_policies db ids tenant entity grants by =
    let rows = grant_rows ids 0 tenant entity by grants in
    if db.reachable
    then (write db (keep (λ p. not (is_basic tenant entity p)) db.policies ++ rows), some rows)
    else (db, none)
