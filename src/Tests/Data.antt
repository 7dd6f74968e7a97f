-- ===== src/Tests/Data.antt =====
-- The orders of one tenant: an entity with a workflow, its policies, and a stored record.
use metap.Prelude.{Bool, true, false, Option, none, some, List, [], ◌∷◌, String}
use metap.Json.{str, JsonObject}
use metap.Permission.Context.{RequestContext}
use metap.Permission.Condition.{
  PolicyCondition, attribute, eq, literal, from_context, PolicyEffect, allow, deny, PolicyRow,
}
use metap.Metadata.Entity.{
  EntityField, EntityDefinition, EntityWorkflow, WorkflowTransition, kind_reference, FieldKind,
  kind_string, kind_enum,
}
use metap.Control.PolicyStore.{PolicyDb}
use metap.Crud.Store.{Row, Db}
use metap.Crud.Enrich.{Service}

-- Every text is an identifier.
abbrev pub parse_any : String → Option String
parse_any s = some s

abbrev pub clerk : RequestContext
clerk = record {
  tenant_id = "t1";
  user_id = "u1";
  roles = "clerk" ∷ [];
  has_roles = true;
  function_id = "";
  context_attributes = none;
  forwarded_bearer_token = "";
}

abbrev pub policy :
    String → String → String → String → PolicyEffect → Option PolicyCondition → PolicyRow
policy id action field subject effect condition = record {
  id = id;
  tenant_id = "t1";
  entity = "orders";
  action = action;
  field = field;
  subject = subject;
  roles = "clerk" ∷ [];
  has_roles = true;
  condition = condition;
  created_by = none;
  effect = effect;
}

abbrev pub may_read : PolicyRow
may_read = policy "p1" "read" "" "context" allow none

abbrev pub no_blocked : PolicyRow
no_blocked =
    policy "p2" "read" "" "record" deny
      (some (attribute "status" eq (literal (some (str "blocked")))))

abbrev pub no_price : PolicyRow
no_price = policy "p3" "read" "price" "context" deny none

abbrev pub fixed_price : PolicyRow
fixed_price = policy "p4" "write" "price" "context" deny none

abbrev pub may_approve : PolicyRow
may_approve = policy "p5" "transition:approve" "" "context" allow none

abbrev pub may_update : PolicyRow
may_update = policy "p6" "update" "" "context" allow none

abbrev pub may_delete : PolicyRow
may_delete = policy "p7" "delete" "" "context" allow none

abbrev pub may_create : PolicyRow
may_create = policy "p8" "create" "" "context" allow none

abbrev pub policies : PolicyDb
policies = record {
  reachable = true;
  policies =
      may_read ∷ no_blocked ∷ no_price ∷ fixed_price ∷ may_approve ∷ may_update ∷ may_delete
      ∷ may_create ∷ [];
}

abbrev pub field : String → FieldKind → Option Bool → List String → EntityField
field name kind required values = record {
  name = name;
  label = name;
  kind = kind;
  required = required;
  indexed = none;
  unique = none;
  unique_scope = none;
  enum_values = values;
  ref_entity = none;
  ref_display_field = none;
  searchable = none;
  search_mode = none;
  sortable = none;
  storage = none;
  min_value = none;
  max_value = none;
  min_length = some 1;
  max_length = some 8;
  computed = none;
  system = none;
}

abbrev pub approve : WorkflowTransition
approve = record {
  action = "approve";
  source = "draft";
  target = "approved";
  label = "Approve";
  guard = some (attribute "note" eq (literal (some (str "ready"))));
  validator = none;
  set_fields = ("approver", from_context "userId") ∷ [];
  guard_message = "not ready";
  validator_message = "";
}

abbrev pub approval : EntityWorkflow
approval = record {
  state_field = "status";
  initial_state = "draft";
  terminal_states = "approved" ∷ [];
  transitions = approve ∷ [];
}

abbrev pub orders : EntityDefinition
orders = record {
  name = "orders";
  label = "Orders";
  table_name = "orders";
  fields =
      field "status" kind_enum none ("draft" ∷ "approved" ∷ [])
      ∷ field "note" kind_string (some true) []
      ∷ [];
  list_views = [];
  workflow = some approval;
  unique_constraints = [];
  audit = some (record { enabled = true; redacted_fields = [] });
}

abbrev pub draft_data : JsonObject
draft_data = ("status", str "draft") ∷ ("note", str "ready") ∷ []

abbrev pub draft : Row
draft = record {
  table = "orders";
  id = "r1";
  tenant_id = "t1";
  code = none;
  status = some "draft";
  fields = draft_data;
  version = 3;
  deleted = false;
  updated_by = none;
}

abbrev pub tables : Db
tables = record { rows = draft ∷ []; events = []; outbox = []; audits = []; invalidated = [] }

abbrev pub service : Service
service = record {
  find_entity = λ _. some orders;
  policies = policies;
  has_audit_store = true;
  context_entity = none;
}

-- A line of an order: its field `order` refers to the order.
abbrev pub lines : EntityDefinition
lines = record orders {
  name = "lines";
  table_name = "lines";
  fields = record (field "order" kind_reference (some true) []) { ref_entity = some "orders" } ∷ [];
  workflow = none;
}

abbrev pub line : Row
line = record draft { table = "lines"; id = "r2"; fields = ("order", str "r1") ∷ [] }

abbrev pub tables_with_line : Db
tables_with_line = record tables { rows = draft ∷ line ∷ [] }

abbrev pub registry : List EntityDefinition
registry = orders ∷ lines ∷ []
