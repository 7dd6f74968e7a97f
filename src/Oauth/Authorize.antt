-- ===== src/Oauth/Authorize.antt =====
-- The authorization endpoint and the decision of go/httpserver/routes_oauth2.go, from an
-- authenticated session on: its tenant and user are arguments. The query part of a redirect and the
-- consent page are values.
pub mod Checked
use metap.Prelude.{
  Bool, true, false, not, Option, none, some, List, String, ◌==◌, ◌&&◌, mem_text, if◌then◌else◌,
}
use metap.Oauth.Db.{Result, ok, err, Env, OauthClient, PendingRow, Db, is_none}
use metap.Oauth.Scope.{scope_is_subset, join_tokens}
use metap.Oauth.Codes.{CreateCodeInput, create_authorization_code}
use metap.Oauth.Consents.{
  create_pending_authorization, consume_pending_authorization, get_consent_scope, record_consent,
}
use metap.Oauth.Clients.{get_client_by_client_id}
use metap.Oauth.Grants.{Reply, replied, refused, internal_error}

-- The session that requireAuth and ScopedTenant found; the user is a parsed identifier, or none.
pub record Session : Type 0 where
  pub tenant_id : String
  pub user_id : Option String

pub record AuthorizeRequest : Type 0 where
  pub response_type : String
  pub client_id : String
  pub redirect_uri : String
  pub scope : String
  pub state : String
  pub code_challenge : String
  pub code_challenge_method : String

pub data AuthorizeAnswer : Type 0 where
  -- The redirect URI, the code in it and the client's state.
  redirect_with_code : String → String → Option String → AuthorizeAnswer
  denied_redirect : String → Option String → AuthorizeAnswer
  -- The client's name and the stored request.
  consent_page : String → PendingRow → AuthorizeAnswer

-- The statements of the endpoint, in order.
pub record AuthorizeEnv : Type 0 where
  pub reading : Env
  pub consent : Env
  pub writing : Env

abbrev pub nil_if_empty : String → Option String
nil_if_empty s = if s == "" then none else some s

abbrev refuses_method : Option String → Bool
refuses_method none = false
refuses_method (some m) = not (m == "S256")

-- The scope is covered by what the user has consented to before.
abbrev is_consented : String → Option String → Bool
is_consented scope none = false
is_consented scope (some granted) = scope_is_subset scope granted

module _ (hash_token : String → String) where
  unfoldable pub issue_authorization_code :
      Env → CreateCodeInput → Option String → Db → Reply AuthorizeAnswer × Db
  issue_authorization_code e input client_state db =
      let created = create_authorization_code hash_token e input db in
      elim created.0 [
        | err ↦ (internal_error, created.1)
        | ok (_, raw) ↦
            (replied (redirect_with_code input.redirect_uri raw client_state), created.1)
      ]

  -- The part that follows the checks of the client: the code, or the consent screen.
  unfoldable pub ask_consent :
      AuthorizeEnv
      → AuthorizeRequest
      → OauthClient
      → String
      → String
      → Db
      → Reply AuthorizeAnswer × Db
  unfolding issue_authorization_code create_pending_authorization
  ask_consent e r client tenant_id user_id db =
      elim (get_consent_scope e.consent client.id user_id db) [
        | err ↦ (internal_error, db)
        | ok consented ↦
            let pending =
              create_pending_authorization e.writing
                (record {
                  client_id = client.id;
                  tenant_id = tenant_id;
                  user_id = user_id;
                  redirect_uri = r.redirect_uri;
                  scope = r.scope;
                  code_challenge = nil_if_empty r.code_challenge;
                  code_challenge_method = nil_if_empty r.code_challenge_method;
                  client_state = nil_if_empty r.state;
                })
                db in
            if is_consented r.scope consented
            then issue_authorization_code e.writing
                (record {
                  client_id = client.id;
                  tenant_id = tenant_id;
                  user_id = user_id;
                  redirect_uri = r.redirect_uri;
                  scope = r.scope;
                  code_challenge = nil_if_empty r.code_challenge;
                  code_challenge_method = nil_if_empty r.code_challenge_method;
                })
                (nil_if_empty r.state) db
            else elim pending.0 [
              | err ↦ (internal_error, pending.1)
              | ok row ↦ (replied (consent_page client.name row), pending.1)
            ]
      ]

  -- The checks of a client that was found.
  unfoldable pub check_client :
      AuthorizeEnv
      → AuthorizeRequest
      → OauthClient
      → String
      → String
      → Db
      → Reply AuthorizeAnswer × Db
  unfolding ask_consent scope_is_subset join_tokens
  check_client e r client tenant_id user_id db =
      if not (is_none client.revoked_at)
      then (refused 400 "invalid_client", db)
      else if not (client.tenant_id == tenant_id)
      then (refused 403 "invalid_client", db)
      else if not (mem_text r.redirect_uri client.redirect_uris)
      then (refused 400 "invalid_request", db)
      else if refuses_method (nil_if_empty r.code_challenge_method)
      then (refused 400 "invalid_request", db)
      else if not client.is_confidential && is_none (nil_if_empty r.code_challenge)
      then (refused 400 "invalid_request", db)
      else if not (scope_is_subset r.scope (join_tokens client.allowed_scopes))
      then (refused 400 "invalid_scope", db)
      else ask_consent e r client tenant_id user_id db

  unfoldable pub authorize :
      AuthorizeEnv → AuthorizeRequest → Session → Db → Reply AuthorizeAnswer × Db
  unfolding check_client get_client_by_client_id
  authorize e r session db =
      if not (r.response_type == "code")
      then (refused 400 "unsupported_response_type", db)
      else elim session.user_id [
        | none ↦ (refused 401 "unauthorized", db)
        | some user_id ↦ elim (get_client_by_client_id e.reading r.client_id db) [
          | err ↦ (internal_error, db)
          | ok none ↦ (refused 400 "invalid_client", db)
          | ok (some client) ↦ check_client e r client session.tenant_id user_id db
        ]
      ]

  -- A pending request that has been taken: denied, or approved.
  unfoldable pub decide :
      AuthorizeEnv → Bool → PendingRow → String → String → Db → Reply AuthorizeAnswer × Db
  unfolding issue_authorization_code record_consent
  decide e approve pending tenant_id user_id db =
      let recorded =
        record_consent e.consent tenant_id pending.client_id user_id pending.scope db in
      if not approve
      then (replied (denied_redirect pending.redirect_uri pending.client_state), db)
      else if not recorded.0
      then (internal_error, recorded.1)
      else issue_authorization_code e.writing
          (record {
            client_id = pending.client_id;
            tenant_id = tenant_id;
            user_id = user_id;
            redirect_uri = pending.redirect_uri;
            scope = pending.scope;
            code_challenge = pending.code_challenge;
            code_challenge_method = pending.code_challenge_method;
          })
          pending.client_state recorded.1

  unfoldable pub authorize_decision :
      AuthorizeEnv → String → Bool → Session → Db → Reply AuthorizeAnswer × Db
  unfolding decide consume_pending_authorization
  authorize_decision e request_id approve session db = elim session.user_id [
    | none ↦ (refused 401 "unauthorized", db)
    | some user_id ↦
        let consumed =
          consume_pending_authorization e.reading request_id session.tenant_id user_id db in
        elim consumed.0 [
          | err ↦ (internal_error, consumed.1)
          | ok none ↦ (refused 400 "invalid_request", consumed.1)
          | ok (some pending) ↦ decide e approve pending session.tenant_id user_id consumed.1
        ]
  ]
