-- ===== src/Oauth/Clients.antt =====
-- go/oauthserver/client.go
use Prim.Native.String.{◌++◌ as append}
use metap.Prelude.{
  Bool, not, Option, none, some, List, [], ◌∷◌, ◌++◌, String, ◌==◌, ◌&&◌, ◌||◌, any, keep,
  if◌then◌else◌,
}
use metap.Oauth.Db.{Result, ok, err, Env, OauthClient, Db, is_none, find, update_where}

pub record CreateClientInput : Type 0 where
  pub tenant_id : String
  pub name : String
  pub redirect_uris : List String
  pub allowed_scopes : List String
  pub is_confidential : Bool
  pub service_user_id : String

abbrev has_client : OauthClient → List OauthClient → Bool
has_client new rows = any (λ r. r.client_id == new.client_id) rows || any (λ r. r.id == new.id) rows

insert_client : Env → OauthClient → String → Db → Result (OauthClient × String) × Db
insert_client e new secret db =
    if e.inserts && not (has_client new db.clients)
    then (ok (new, secret), record db { clients = db.clients ++ new ∷ [] })
    else (err, db)

-- HashToken is `hash_token`; the second random text is the secret's.
unfoldable pub create_client :
    (String → String)
    → Env
    → Option String
    → CreateClientInput
    → Db
    → Result (OauthClient × String) × Db
unfolding insert_client
create_client hash_token e random_secret input db = elim e.random [
  | none ↦ (err, db)
  | some raw_id ↦ elim random_secret [
    | none ↦ (err, db)
    | some secret ↦
        insert_client e
          (record {
            id = e.id;
            tenant_id = input.tenant_id;
            client_id = append "mcl_" raw_id;
            client_secret_hash = hash_token secret;
            name = input.name;
            redirect_uris = input.redirect_uris;
            allowed_scopes = input.allowed_scopes;
            is_confidential = input.is_confidential;
            revoked_at = none;
            service_user_id = some input.service_user_id;
          })
          secret db
  ]
]

unfoldable pub get_client_by_client_id : Env → String → Db → Result (Option OauthClient)
get_client_by_client_id e client_id db =
    if e.reads then ok (find (λ r. r.client_id == client_id) db.clients) else err

-- The rows are in the order of their creation.
unfoldable pub list_clients : Env → String → Db → Result (List OauthClient)
list_clients e tenant_id db =
    if e.reads
    then ok (keep (λ r. r.tenant_id == tenant_id && is_none r.revoked_at) db.clients)
    else err

-- The first part tells whether a row was affected.
unfoldable pub revoke_client : Env → String → String → Db → Result Bool × Db
revoke_client e tenant_id id db =
    let here =
      λ (r : OauthClient). r.id == id && r.tenant_id == tenant_id && is_none r.revoked_at in
    if e.updates
    then (
      ok (any here db.clients),
      record db {
        clients = update_where here (λ r. record r { revoked_at = some e.now }) db.clients;
      },
    )
    else (err, db)

unfoldable pub verify_client_secret : (String → String) → OauthClient → String → Bool
verify_client_secret hash_token client raw_secret =
    is_none client.revoked_at && hash_token raw_secret == client.client_secret_hash
