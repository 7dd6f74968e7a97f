-- ===== src/Crud/Store.antt =====
-- What the operations of go/crud share: the tables of one tenant's database, the outcome of the
-- driver's calls, the results, and the helpers of go/crud/helpers.go and go/crud/result.go.
-- Time stamps are left out. The version is a number without the bound of int32.
use metap.Prelude.{
  ◌≡◌, refl, ℕ, Bool, true, false, not, Option, none, some, List, [], ◌∷◌, String, ◌==◌, ◌&&◌, eqb,
  lookup, if◌then◌else◌,
}
use metap.Json.{Json, JsonObject}
use metap.Permission.Context.{RequestContext, PermissionDecision}
use metap.Permission.Service.{ServiceError}
use metap.Permission.Service
use metap.Permission.Snapshot.{PermissionSnapshot, filter_readable_fields}
use metap.Metadata.Entity.{EntityDefinition, EntityWorkflow}
use metap.Crud.Validation.{FieldErrors}
use metap.Workflow.{WorkflowError}
use metap.Audit.{Entry}

-- A row of the dedicated table `table`.
pub record Row : Type 0 where
  pub table : String
  pub id : String
  pub tenant_id : String
  pub code : Option String
  pub status : Option String
  pub fields : JsonObject
  pub version : ℕ
  pub deleted : Bool
  pub updated_by : Option String

-- A row of workflow_events.
pub record WorkflowEvent : Type 0 where
  pub tenant_id : String
  pub entity : String
  pub record_id : String
  pub action : String
  pub from_state : String
  pub to_state : String
  pub actor : Option String

pub record OutboxEvent : Type 0 where
  pub topic : String
  pub aggregate_type : String
  pub aggregate_id : String
  pub payload : Json

-- The tables, and the keys (tenant and user) that have been removed from the cache of context
-- attributes.
pub record Db : Type 0 where
  pub rows : List Row
  pub events : List WorkflowEvent
  pub outbox : List OutboxEvent
  pub audits : List Entry
  pub invalidated : List (String × String)

pub data RouterErrorKind : Type 0 where
  tenant_suspended tenant_migrating tenant_provisioning tenant_expired : RouterErrorKind
  tenant_deleted invalid_schema_name : RouterErrorKind

-- Router.Begin: a transaction, an error of the tenant's lifecycle, or another error.
pub data Begin : Type 0 where
  opened : Begin
  unavailable : RouterErrorKind → Begin
  broken : Begin

-- The text that goes with a refusal.
pub data Message : Type 0 where
  no_message : Message
  workflow_message : WorkflowError → Message
  plain_message : String → Message

-- A ServiceResult that is not ok.
pub record Refusal : Type 0 where
  pub status : ℕ
  pub error_code : String
  pub message : Message
  pub field_errors : FieldErrors

-- An operation returns a result, a refusal, or an error of Go.
pub data Response {ℓ} (A : Type ℓ) : Type ℓ where
  done : A → Response A
  refused : Refusal → Response A
  failed : Response A

infixl 5 ◌>>=◌
abbrev pub ◌>>=◌ {ℓ κ} : {A : Type ℓ} {B : Type κ} → Response A → (A → Response B) → Response B
done a >>= f = f a
refused r >>= f = refused r
failed >>= f = failed

abbrev pub ◌>>◌ {ℓ κ} : {A : Type ℓ} {B : Type κ} → Response A → Response B → Response B
m >> n = m >>= λ _. n

infixl 5 ◌>>◌
abbrev pub refuse {ℓ} : {A : Type ℓ} → ℕ → String → Response A
refuse status code =
    refused (record { status = status; error_code = code; message = no_message; field_errors = [] })

abbrev pub refuse_with {ℓ} : {A : Type ℓ} → ℕ → String → Message → FieldErrors → Response A
refuse_with status code message errs =
    refused (record { status = status; error_code = code; message = message; field_errors = errs })

-- `if err != nil { return err }`
abbrev pub check : Bool → Response (Unit {0})
check true = done tt
check false = failed

abbrev pub or_refuse {ℓ} : {A : Type ℓ} → ℕ → String → Option A → Response A
or_refuse status code none = refuse status code
or_refuse status code (some a) = done a

abbrev pub of_service {ℓ} : {A : Type ℓ} → Service.Result A → Response A
of_service (Service.ok a) = done a
of_service (Service.err e) = failed

-- routerUnavailable
abbrev pub begin : Begin → Response (Unit {0})
begin opened = done tt
begin (unavailable tenant_suspended) = refuse 403 "tenant_unavailable"
begin (unavailable tenant_expired) = refuse 403 "tenant_unavailable"
begin (unavailable tenant_migrating) = refuse 503 "tenant_unavailable"
begin (unavailable tenant_provisioning) = refuse 503 "tenant_unavailable"
begin (unavailable tenant_deleted) = refuse 404 "tenant_not_found"
begin (unavailable invalid_schema_name) = failed
begin broken = failed

abbrev reason_of : PermissionDecision → String
reason_of d = if d.reason == "" then "forbidden" else d.reason

abbrev pub permit : PermissionDecision → Response (Unit {0})
permit d = if d.allowed then done tt else refuse 403 (reason_of d)

abbrev named_field : String → FieldErrors
named_field f = if f == "" then [] else (f, "forbidden" ∷ []) ∷ []

abbrev pub permit_fields : PermissionDecision → Response (Unit {0})
permit_fields d =
    if d.allowed then done tt else refuse_with 403 (reason_of d) no_message (named_field d.field)

-- parseUserID
abbrev parsed_user : Option String → Response (Option String)
parsed_user none = failed
parsed_user (some u) = done (some u)

abbrev pub parse_user_id : (String → Option String) → RequestContext → Response (Option String)
parse_user_id parse_uuid rc =
    if rc.user_id == "" then done none else parsed_user (parse_uuid rc.user_id)

-- The WHERE clause of a read of one live record.
abbrev pub is_live : String → String → String → Row → Bool
is_live table id tenant r = r.table == table && r.id == id && r.tenant_id == tenant && not r.deleted

-- The WHERE clause of a write: a live record at the expected version.
abbrev pub is_at : String → String → String → ℕ → Row → Bool
is_at table id tenant version r = is_live table id tenant r && eqb r.version version

unfoldable pub find_row : (Row → Bool) → List Row → Option Row
find_row p [] = none
find_row p (r ∷ rs) = let rest = find_row p rs in if p r then some r else rest

unfoldable pub fetch_existing : Db → EntityDefinition → String → String → Option Row
unfolding find_row
fetch_existing db entity id tenant = find_row (is_live entity.table_name id tenant) db.rows

-- UPDATE ... WHERE ...
unfoldable pub update_rows : (Row → Bool) → (Row → Row) → List Row → List Row
update_rows p g [] = []
update_rows p g (r ∷ rs) = let rest = update_rows p g rs in if p r then g r ∷ rest else r ∷ rest

abbrev has_key : String → JsonObject → Bool
has_key k m = elim (lookup k m) [ none ↦ false | some _ ↦ true ]

abbrev shown_status : Option EntityWorkflow → JsonObject → Option String → Option String
shown_status none visible status = status
shown_status (some w) visible status = if has_key w.state_field visible then status else none

-- The columns that mirror a field are masked as the field is.
unfoldable pub mask_record_for_read :
    EntityDefinition → RequestContext → PermissionSnapshot → Row → Row
mask_record_for_read entity rc snapshot row =
    let visible = filter_readable_fields snapshot rc row.fields in
    record row {
      fields = visible;
      code = if has_key "code" visible then row.code else none;
      status = shown_status entity.workflow visible row.status;
    }

-- Inversion of a bind that returns.
pub >>=-done {ℓ κ} :
    {A : Type ℓ} {B : Type κ} (m : Response A) (f : A → Response B) {b : B}
    → (m >>= f) ≡ done b
    → (a : A) × (m ≡ done a) × (f a ≡ done b)
>>=-done (done a) f h = (a, refl, h)
>>=-done (refused r) f h = cc
>>=-done failed f h = cc

-- The operation did not return a result.
abbrev pub IsStopped {ℓ} : {A : Type ℓ} → Response A → Type 0
IsStopped (done a) = ⊥
IsStopped (refused r) = Unit {0}
IsStopped failed = Unit {0}

pub done-injective {ℓ} : {A : Type ℓ} {a b : A} → done a ≡ done b → a ≡ b
done-injective h = cc

pub or_refuse-done {ℓ} :
    {A : Type ℓ} (status : ℕ) (code : String) {a : A} (o : Option A)
    → or_refuse status code o ≡ done a
    → o ≡ some a
or_refuse-done status code none h = cc
or_refuse-done status code (some a) h = cc
