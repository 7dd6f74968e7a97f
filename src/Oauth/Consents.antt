-- ===== src/Oauth/Consents.antt =====
-- go/oauthserver/consent.go
use metap.Prelude.{
  ℕ, ◌+◌, ◌*◌, Bool, true, false, not, Option, none, some, List, [], ◌∷◌, ◌++◌, String, ◌==◌, ◌&&◌,
  any, keep, ltb, if◌then◌else◌,
}
use metap.Oauth.Db.{Result, ok, err, Env, PendingRow, ConsentRow, Db, find, update_where}
use metap.Oauth.Scope.{scope_tokens, merge_tokens, join_tokens}

abbrev pub pending_authorization_ttl_seconds : ℕ
pending_authorization_ttl_seconds = 10 * 60

pub record CreatePendingInput : Type 0 where
  pub client_id : String
  pub tenant_id : String
  pub user_id : String
  pub redirect_uri : String
  pub scope : String
  pub code_challenge : Option String
  pub code_challenge_method : Option String
  pub client_state : Option String

abbrev pub pending_row : Env → CreatePendingInput → PendingRow
pending_row e input = record {
  id = e.id;
  client_id = input.client_id;
  tenant_id = input.tenant_id;
  user_id = input.user_id;
  redirect_uri = input.redirect_uri;
  scope = input.scope;
  code_challenge = input.code_challenge;
  code_challenge_method = input.code_challenge_method;
  client_state = input.client_state;
  expires_at = e.now + pending_authorization_ttl_seconds;
}

-- PRIMARY KEY (id)
abbrev has_pending : String → List PendingRow → Bool
has_pending id rows = any (λ r. r.id == id) rows

unfoldable pub create_pending_authorization : Env → CreatePendingInput → Db → Result PendingRow × Db
create_pending_authorization e input db =
    if e.inserts && not (has_pending e.id db.pendings)
    then (
      ok (pending_row e input),
      record db { pendings = db.pendings ++ pending_row e input ∷ [] },
    )
    else (err, db)

unfoldable pub get_pending_authorization : Env → String → Db → Result (Option PendingRow)
get_pending_authorization e id db =
    if e.reads then ok (find (λ r. r.id == id && ltb e.now r.expires_at) db.pendings) else err

-- The WHERE clause of the decision.
abbrev pub is_decidable : ℕ → String → String → String → PendingRow → Bool
is_decidable now id tenant_id user_id r =
    r.id == id && r.tenant_id == tenant_id && r.user_id == user_id && ltb now r.expires_at

unfoldable pub consume_pending_authorization :
    Env → String → String → String → Db → Result (Option PendingRow) × Db
consume_pending_authorization e id tenant_id user_id db =
    let here = is_decidable e.now id tenant_id user_id in
    if e.updates
    then (ok (find here db.pendings), record db { pendings = keep (λ r. not (here r)) db.pendings })
    else (err, db)

abbrev pub is_consent_of : String → String → ConsentRow → Bool
is_consent_of client_id user_id r = r.client_id == client_id && r.user_id == user_id

abbrev scope_of : Option ConsentRow → Option String
scope_of none = none
scope_of (some r) = some r.scope

unfoldable pub get_consent_scope : Env → String → String → Db → Result (Option String)
get_consent_scope e client_id user_id db =
    if e.reads then ok (scope_of (find (is_consent_of client_id user_id) db.consents)) else err

-- The scope that is stored: the union with what was granted before.
unfoldable pub merged_scope : Option String → String → String
unfolding scope_tokens merge_tokens join_tokens
merged_scope none newly_approved = newly_approved
merged_scope (some existing) newly_approved =
    join_tokens (merge_tokens (scope_tokens existing) (scope_tokens newly_approved))

-- INSERT ... ON CONFLICT (client_id, user_id) DO UPDATE SET scope
unfoldable pub upsert_consent : ConsentRow → List ConsentRow → List ConsentRow
upsert_consent new rows =
    if any (is_consent_of new.client_id new.user_id) rows
    then update_where (is_consent_of new.client_id new.user_id)
        (λ r. record r { scope = new.scope }) rows
    else rows ++ new ∷ []

store_consent : Env → ConsentRow → Db → Bool × Db
unfolding upsert_consent
store_consent e new db =
    if e.inserts
    then (true, record db { consents = upsert_consent new db.consents })
    else (false, db)

-- The result is false for an error.
unfoldable pub record_consent : Env → String → String → String → String → Db → Bool × Db
unfolding get_consent_scope merged_scope store_consent
record_consent e tenant_id client_id user_id newly_approved db =
    elim (get_consent_scope e client_id user_id db) [
      | err ↦ (false, db)
      | ok existing ↦
          store_consent e
            (record {
              client_id = client_id;
              tenant_id = tenant_id;
              user_id = user_id;
              scope = merged_scope existing newly_approved;
            })
            db
    ]
