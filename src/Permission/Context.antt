-- ===== src/Permission/Context.antt =====
-- go/permission/context.go
use metap.Prelude.{
  Bool, true, false, Option, none, some, List, [], ◌∷◌, String, ◌==◌, ◌&&◌, ◌||◌, insert, lookup,
  insert_all, any, cut, fields, mem_text, if◌then◌else◌,
}
use Prim.Native.String.{◌++◌}
use metap.Json.{Json, str, JsonObject, object, texts, as_strings}

abbrev pub oauth_scope_attribute : String
oauth_scope_attribute = "oauthScope"

abbrev pub oauth_client_id_attribute : String
oauth_client_id_attribute = "oauthClientId"

abbrev pub admin_scope : String
admin_scope = "admin"

-- An empty `user_id` or `function_id` is an absent one.
pub record RequestContext : Type 0 where
  pub tenant_id : String
  pub user_id : String
  pub roles : List String
  pub has_roles : Bool
  pub function_id : String
  pub context_attributes : Option JsonObject
  pub forwarded_bearer_token : String

unfoldable pub is_admin : RequestContext → Bool
is_admin c = mem_text "admin" c.roles

abbrev attributes : RequestContext → JsonObject
attributes c = elim c.context_attributes [ none ↦ [] | some m ↦ m ]

unfoldable pub apply_oauth_grant : RequestContext → String → String → Bool → RequestContext
apply_oauth_grant c scope client_id has_client_id =
    let scoped = insert oauth_scope_attribute (texts (fields scope)) (attributes c) in
    record c {
      context_attributes = some (
          if has_client_id
          then insert oauth_client_id_attribute (str client_id) scoped
          else scoped);
    }

-- The granted scope tokens; `none` for an ordinary session.
unfoldable pub oauth_scope : RequestContext → Option (List String)
oauth_scope c = elim c.context_attributes [
  | none ↦ none
  | some m ↦ elim (lookup oauth_scope_attribute m) [ none ↦ none | some raw ↦ as_strings raw ]
]

pub data EntityAction : Type 0 where
  read create update delete transition : EntityAction

abbrev pub action_name : EntityAction → String
action_name read = "read"
action_name create = "create"
action_name update = "update"
action_name delete = "delete"
action_name transition = "transition"

abbrev pub transition_action_policy : String → String
transition_action_policy action = action_name transition ++ (":" ++ action)

abbrev pub scope_verb : EntityAction → String
scope_verb read = "read"
scope_verb create = "write"
scope_verb update = "write"
scope_verb delete = "delete"
scope_verb transition = "transition"

-- The test of one scope token, `<verb>:<entity>` or `<verb>:*`.
unfoldable pub token_permits : String → EntityAction → String → Bool
token_permits entity action t = elim (cut b':' t) [
  | none ↦ false
  | some (v, e) ↦ v == scope_verb action && (e == "*" || e == entity)
]

unfoldable pub scope_permits : RequestContext → String → EntityAction → Bool
scope_permits c entity action = elim (oauth_scope c) [
  | none ↦ true
  | some tokens ↦ any (token_permits entity action) tokens
]

unfoldable pub scope_permits_admin_surface : RequestContext → Bool
scope_permits_admin_surface c = elim (oauth_scope c) [
  | none ↦ true
  | some tokens ↦ mem_text admin_scope tokens
]

abbrev with_text : String → String → JsonObject → JsonObject
with_text k v m = if v == "" then m else insert k (str v) m

abbrev with_roles : RequestContext → JsonObject → JsonObject
with_roles c m = if c.has_roles then insert "roles" (texts c.roles) m else m

-- The context as an object, its attributes flattened over the fields.
unfoldable pub to_value : RequestContext → Json
to_value c = object (
    insert_all (attributes c) (
      with_text "functionId" c.function_id
        (with_roles c (with_text "userId" c.user_id (("tenantId", str c.tenant_id) ∷ [])))))

pub record PermissionDecision : Type 0 where
  pub allowed : Bool
  pub reason : String
  pub field : String

abbrev pub permitted : PermissionDecision
permitted = record { allowed = true; reason = ""; field = "" }

abbrev pub forbidden : PermissionDecision
forbidden = record { allowed = false; reason = "forbidden"; field = "" }

abbrev pub forbidden_field : String → PermissionDecision
forbidden_field f = record { allowed = false; reason = "forbidden"; field = f }
