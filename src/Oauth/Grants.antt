-- ===== src/Oauth/Grants.antt =====
-- The token and revocation endpoints of go/httpserver/routes_oauth2.go over the tables. Parameters:
-- HashToken, the S256 digest, the base64 decoding of encoding/base64 and the minting of a JWT. A
-- transaction that is rolled back, or whose commit fails, leaves the tables as they were.
pub mod Issued
use metap.Prelude.{
  ℕ, Bool, true, false, not, Option, none, some, List, [], ◌∷◌, String, Assoc, lookup, ◌==◌, ◌||◌,
  ◌&&◌, cut, cut_prefix, if◌then◌else◌,
}
use metap.Oauth.Db.{Result, ok, err, Env, OauthClient, Db, is_none}
use metap.Oauth.Scope.{scope_is_subset, join_tokens}
use metap.Oauth.Codes.{AuthorizationCode, consume_authorization_code, verify_pkce}
use metap.Oauth.Refresh.{
  RefreshToken, ConsumeRefreshOutcome, rotated, invalid, reused, create_refresh_token,
  consume_refresh_token, revoke_refresh_token,
}
use metap.Oauth.Clients.{get_client_by_client_id, verify_client_secret}

abbrev pub oauth_access_token_ttl_seconds : ℕ
oauth_access_token_ttl_seconds = 3600

pub record OauthTokenResponse : Type 0 where
  pub access_token : String
  pub expires_in : ℕ
  pub refresh_token : Option String
  pub scope : String

pub data Reply {ℓ} (A : Type ℓ) : Type ℓ where
  replied : A → Reply A
  -- The status and the code of writeServiceError.
  refused : ℕ → String → Reply A
  internal_error : Reply A

pub record TokenRequest : Type 0 where
  pub form_parses : Bool
  -- The Authorization header, empty if there is none.
  pub authorization : String
  pub form : Assoc String

-- r.FormValue(name)
abbrev pub form_value : TokenRequest → String → String
form_value r name = elim (lookup name r.form) [ none ↦ "" | some v ↦ v ]

-- What a request meets: the call that reads the client, the two calls that write, the transaction.
pub record GrantEnv : Type 0 where
  pub reading : Env
  pub consuming : Env
  pub creating : Env
  pub begins : Bool
  pub commits : Bool

-- The library that the endpoints use.
pub record TokenTools : Type 0 where
  pub hash_token : String → String
  pub s256 : String → String
  pub decode64 : String → Option String
  -- MintOAuthToken: tenant, user, life time, scope, client; `none` for an error.
  pub mint : String → String → ℕ → String → String → Option String

abbrev from_form : TokenRequest → Option (String × String)
from_form r =
    let id = form_value r "client_id" in
    let secret = form_value r "client_secret" in
    if not (id == "") && not (secret == "") then some (id, secret) else none

module _ (t : TokenTools) where
  -- The credentials of a Basic header; `none` goes on to the form fields.
  unfoldable pub basic_credentials : String → Option (String × String)
  basic_credentials header = elim (cut_prefix header "Basic ") [
    | none ↦ none
    | some b64 ↦ elim (t.decode64 b64) [ none ↦ none | some decoded ↦ cut b':' decoded ]
  ]

  unfoldable pub extract_client_auth : TokenRequest → Option (String × String)
  unfolding basic_credentials
  extract_client_auth r = elim (basic_credentials r.authorization) [
    | some credentials ↦ some credentials
    | none ↦ from_form r
  ]

  unfoldable pub authenticate_client : Env → String → String → Db → Reply OauthClient
  unfolding get_client_by_client_id verify_client_secret
  authenticate_client e client_id secret db = elim (get_client_by_client_id e client_id db) [
    | err ↦ internal_error
    | ok none ↦ refused 401 "invalid_client"
    | ok (some client) ↦
        if not (verify_client_secret t.hash_token client secret)
        then refused 401 "invalid_client"
        else replied client
  ]

  -- A body with a minted token.
  abbrev token_response : Option String → Option String → String → Reply OauthTokenResponse
  token_response minted refresh scope = elim minted [
    | none ↦ internal_error
    | some token ↦ replied (record {
      access_token = token;
      expires_in = oauth_access_token_ttl_seconds;
      refresh_token = refresh;
      scope = scope;
    })
  ]

  unfoldable pub client_credentials_grant : OauthClient → Reply OauthTokenResponse
  unfolding scope_is_subset join_tokens
  client_credentials_grant client =
      if not client.is_confidential
      then refused 400 "unauthorized_client"
      else elim client.service_user_id [
        | none ↦ refused 400 "unauthorized_client"
        | some user ↦
            if not (scope_is_subset "" (join_tokens client.allowed_scopes))
            then refused 400 "invalid_scope"
            else token_response
                (t.mint client.tenant_id user oauth_access_token_ttl_seconds "" client.client_id)
                none ""
      ]

  -- The check of the verifier against the challenge that the code was issued with.
  unfoldable pub pkce_passes : Option String → String → Bool
  unfolding verify_pkce
  pkce_passes none verifier = true
  pkce_passes (some challenge) verifier =
      not (verifier == "") && verify_pkce t.s256 verifier challenge

  -- After the code has been consumed and its verifier checked.
  unfoldable pub exchange :
      GrantEnv → OauthClient → AuthorizationCode → Db → Reply OauthTokenResponse × Db
  exchange g client code db =
      let minted =
        t.mint code.tenant_id code.user_id oauth_access_token_ttl_seconds code.scope
          client.client_id in
      let created =
        create_refresh_token t.hash_token g.creating
          (record {
            client_id = client.id;
            tenant_id = code.tenant_id;
            user_id = code.user_id;
            scope = code.scope;
          })
          db in
      if is_none minted || not g.begins then (internal_error, db) else elim created.0 [
        | err ↦ (internal_error, db)
        | ok (_, raw) ↦
            if g.commits
            then (token_response minted (some raw) code.scope, created.1)
            else (internal_error, db)
      ]

  unfoldable pub authorization_code_grant :
      GrantEnv → TokenRequest → OauthClient → Db → Reply OauthTokenResponse × Db
  unfolding pkce_passes
  authorization_code_grant g r client db =
      let code = form_value r "code" in
      let redirect_uri = form_value r "redirect_uri" in
      let consumed =
        consume_authorization_code t.hash_token g.consuming code client.id redirect_uri db in
      if code == "" || redirect_uri == ""
      then (refused 400 "invalid_request", db)
      else elim consumed.0 [
        | err ↦ (internal_error, consumed.1)
        | ok none ↦ (refused 400 "invalid_grant", consumed.1)
        | ok (some issued) ↦
            if not (pkce_passes issued.code_challenge (form_value r "code_verifier"))
            then (refused 400 "invalid_grant", consumed.1)
            else exchange g client issued consumed.1
      ]

  abbrev requested_scope : TokenRequest → String → String
  requested_scope r granted =
      let asked = form_value r "scope" in if asked == "" then granted else asked

  -- What the outcome of a consumption leads to; `before` are the tables of a rollback.
  unfoldable pub conclude_refresh :
      Bool
      → TokenRequest
      → OauthClient
      → ConsumeRefreshOutcome
      → Db
      → Db
      → Reply OauthTokenResponse × Db
  unfolding scope_is_subset
  conclude_refresh commits r client invalid before after = (refused 400 "invalid_grant", before)
  conclude_refresh commits r client reused before after =
      if commits then (refused 400 "invalid_grant", after) else (internal_error, before)
  conclude_refresh commits r client (rotated token raw) before after =
      let scope = requested_scope r token.scope in
      let minted =
        t.mint token.tenant_id token.user_id oauth_access_token_ttl_seconds scope
          client.client_id in
      if not (scope_is_subset scope token.scope)
      then (refused 400 "invalid_scope", before)
      else if is_none minted || not commits
      then (internal_error, before)
      else (token_response minted (some raw) scope, after)

  unfoldable pub refresh_token_grant :
      GrantEnv → TokenRequest → OauthClient → Db → Reply OauthTokenResponse × Db
  unfolding conclude_refresh
  refresh_token_grant g r client db =
      let raw = form_value r "refresh_token" in
      let consumed = consume_refresh_token t.hash_token g.consuming raw client.id db in
      if raw == ""
      then (refused 400 "invalid_request", db)
      else if not g.begins
      then (internal_error, db)
      else elim consumed.0 [
        | err ↦ (internal_error, db)
        | ok outcome ↦ conclude_refresh g.commits r client outcome db consumed.1
      ]

  unfoldable pub dispatch_grant :
      GrantEnv → TokenRequest → OauthClient → Db → Reply OauthTokenResponse × Db
  unfolding authorization_code_grant refresh_token_grant client_credentials_grant
  dispatch_grant g r client db =
      let grant = form_value r "grant_type" in
      if grant == "authorization_code"
      then authorization_code_grant g r client db
      else if grant == "refresh_token"
      then refresh_token_grant g r client db
      else if grant == "client_credentials"
      then (client_credentials_grant client, db)
      else (refused 400 "unsupported_grant_type", db)

  unfoldable pub token_endpoint : GrantEnv → TokenRequest → Db → Reply OauthTokenResponse × Db
  unfolding extract_client_auth authenticate_client dispatch_grant
  token_endpoint g r db =
      if not r.form_parses
      then (refused 400 "invalid_request", db)
      else elim (extract_client_auth r) [
        | none ↦ (refused 401 "invalid_client", db)
        | some (id, secret) ↦ elim (authenticate_client g.reading id secret db) [
          | internal_error ↦ (internal_error, db)
          | refused status code ↦ (refused status code, db)
          | replied client ↦
              if not (is_none client.revoked_at)
              then (refused 401 "invalid_client", db)
              else dispatch_grant g r client db
        ]
      ]

  unfoldable pub revoke_endpoint : GrantEnv → TokenRequest → Db → Reply (Unit {0}) × Db
  unfolding extract_client_auth authenticate_client
  revoke_endpoint g r db =
      if not r.form_parses
      then (refused 400 "invalid_request", db)
      else elim (extract_client_auth r) [
        | none ↦ (refused 401 "invalid_client", db)
        | some (id, secret) ↦ elim (authenticate_client g.reading id secret db) [
          | internal_error ↦ (internal_error, db)
          | refused status code ↦ (refused status code, db)
          | replied client ↦
              let revoked =
                revoke_refresh_token t.hash_token g.consuming (form_value r "token") client.id db in
              if revoked.0 then (replied tt, revoked.1) else (internal_error, revoked.1)
        ]
      ]
