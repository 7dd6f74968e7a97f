-- ===== src/Tests/Calls.antt =====
-- The calls on the orders, how their input and output goes, and what each hands on.
use metap.Prelude.{true, none, some, [], ◌∷◌}
use metap.Json.{str, JsonObject}
use metap.Permission.Snapshot.{permission_snapshot_from_rows}
use metap.Crud.Store.{Row, opened}
use metap.Crud.Tx.{applied}
use metap.Crud.Delete.{DeleteIo, DeleteCall, PreparedDelete}
use metap.Crud.Create.{CreateIo, CreateCall, PreparedCreate}
use metap.Crud.Unique.{executed, violated}
use metap.Crud.Update.{UpdateIo, UpdateCall, PreparedUpdate}
use metap.Crud.Call.{Io, Call, Prepared}
use metap.Tests.Data.{policies, orders, draft}

abbrev pub smooth : Io
smooth = record {
  registry_loads = true;
  precheck_begin = opened;
  fetches = true;
  reads_actors = true;
  precheck_commits = true;
  enrich_reads = true;
  write_begin = opened;
  updates = true;
  inserts_event = true;
  enqueues = true;
  commits = applied;
  stores_audit = true;
}

abbrev pub approve_call : Call
approve_call = record {
  entity_name = "orders";
  id = "r1";
  action = "approve";
  expected_version = 3;
  payload = some (("note", str "done") ∷ []);
  reason = none;
}

-- The same call by a client that has read an older version.
abbrev pub stale_call : Call
stale_call = record approve_call { expected_version = 2 }

abbrev pub approved_data : JsonObject
approved_data = ("status", str "approved") ∷ ("note", str "done") ∷ ("approver", str "u1") ∷ []

abbrev pub prepared : Prepared
prepared = record {
  loaded = record {
    caller = record { tenant = "t1"; entity = orders };
    snapshot = permission_snapshot_from_rows policies.policies;
    existing = draft;
    actors = [];
  };
  from_state = "draft";
  to_state = "approved";
  next_data = approved_data;
  user_id = some "u1";
}

abbrev pub approved : Row
approved = record draft {
  fields = approved_data;
  status = some "approved";
  version = 4;
  updated_by = some "u1";
}

abbrev pub update_smooth : UpdateIo
update_smooth = record {
  registry_loads = true;
  precheck_begin = opened;
  fetches = true;
  precheck_commits = true;
  enrich_reads = true;
  write_begin = opened;
  statement = executed;
  enqueues = true;
  commits = true;
  stores_audit = true;
}

-- The payload names a state, which the update does not move.
abbrev pub update_call : UpdateCall
update_call = record {
  entity_name = "orders";
  id = "r1";
  expected_version = 3;
  payload = ("note", str "soon") ∷ ("status", str "approved") ∷ [];
  reason = none;
}

abbrev pub stale_update : UpdateCall
stale_update = record update_call { expected_version = 2 }

abbrev pub prepared_update : PreparedUpdate
prepared_update = record {
  loaded = record {
    caller = record { tenant = "t1"; entity = orders };
    snapshot = permission_snapshot_from_rows policies.policies;
    existing = draft;
  };
  next_data = ("status", str "draft") ∷ ("note", str "soon") ∷ [];
  user_id = some "u1";
}

abbrev pub updated_draft : Row
updated_draft = record draft {
  fields = ("status", str "draft") ∷ ("note", str "soon") ∷ [];
  version = 4;
  updated_by = some "u1";
}

abbrev pub delete_smooth : DeleteIo
delete_smooth = record {
  registry_loads = true;
  precheck_begin = opened;
  fetches = true;
  precheck_commits = true;
  enrich_reads = true;
  write_begin = opened;
  finds_references = true;
  updates = true;
  enqueues = true;
  commits = true;
  stores_audit = true;
}

abbrev pub delete_call : DeleteCall
delete_call = record { entity_name = "orders"; id = "r1"; expected_version = 3; reason = none }

abbrev pub prepared_delete : PreparedDelete
prepared_delete = record {
  caller = record { tenant = "t1"; entity = orders };
  snapshot = permission_snapshot_from_rows policies.policies;
  existing = draft;
  user_id = some "u1";
}

abbrev pub removed_draft : Row
removed_draft = record draft { version = 4; deleted = true; updated_by = some "u1" }

abbrev pub create_smooth : CreateIo
create_smooth = record {
  registry_loads = true;
  write_begin = opened;
  statement = executed;
  new_id = "r3";
  enqueues = true;
  commits = true;
  stores_audit = true;
}

-- The database refuses the row: its note is not unique.
abbrev pub create_violating : CreateIo
create_violating = record create_smooth { statement = violated "uniq_orders_note" }

abbrev pub create_call : CreateCall
create_call = record { entity_name = "orders"; payload = ("note", str "new") ∷ []; reason = none }

abbrev pub prepared_create : PreparedCreate
prepared_create = record {
  caller = record { tenant = "t1"; entity = orders };
  snapshot = permission_snapshot_from_rows policies.policies;
  next_data = ("note", str "new") ∷ ("status", str "draft") ∷ [];
  status = some "draft";
  user_id = some "u1";
}

abbrev pub created_order : Row
created_order = record draft {
  id = "r3";
  fields = ("note", str "new") ∷ ("status", str "draft") ∷ [];
  version = 1;
  updated_by = some "u1";
}
