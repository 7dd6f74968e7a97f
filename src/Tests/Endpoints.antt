-- ===== src/Tests/Endpoints.antt =====
-- The theorems on the endpoints of go/httpserver/routes_oauth2.go at one registered client.
use metap.Prelude.{ℕ, true, none, some, [], ◌∷◌, String, lookup, ◌≡◌, ◌⊎◌, refl}
use metap.Oauth.Db.{Env, OauthClient, CodeRow, Db}
use metap.Oauth.Codes.{consume_authorization_code, create_authorization_code}
use metap.Oauth.Refresh.{create_refresh_token}
use metap.Oauth.Consents.{get_consent_scope}
use metap.Oauth.Grants.{
  replied, TokenRequest, GrantEnv, TokenTools, OauthTokenResponse, token_endpoint, exchange,
}
use metap.Oauth.Grants.Issued.{Authenticated, ByCode, ByRefresh, ByItself, token_endpoint-replied}
use metap.Oauth.Authorize.{Session, AuthorizeRequest, redirect_with_code, AuthorizeEnv, authorize}
use metap.Oauth.Authorize.Checked.{IsChecked, authorize-IsChecked}

abbrev tools : TokenTools
tools = record {
  hash_token = λ s. s;
  s256 = λ s. s;
  decode64 = λ s. some s;
  mint = λ tenant user ttl scope client. some "jwt";
}

abbrev at : ℕ → String → String → Env
at now id raw = record {
  now = now;
  id = id;
  random = some raw;
  reads = true;
  inserts = true;
  updates = true;
}

abbrev app : OauthClient
app = record {
  id = "app";
  tenant_id = "acme";
  client_id = "mcl_app";
  client_secret_hash = "secret";
  name = "App";
  redirect_uris = "https://app/cb" ∷ [];
  allowed_scopes = "read" ∷ "write" ∷ [];
  is_confidential = true;
  revoked_at = none;
  service_user_id = none;
}

abbrev issued_code : CodeRow
issued_code = record {
  id = "c1";
  code_hash = "one";
  client_id = "app";
  tenant_id = "acme";
  user_id = "ann";
  redirect_uri = "https://app/cb";
  scope = "read";
  code_challenge = some "proof";
  code_challenge_method = some "S256";
  expires_at = 60;
  used_at = none;
}

abbrev registered : Db
registered = record {
  clients = app ∷ [];
  codes = issued_code ∷ [];
  refreshes = [];
  pendings = [];
  consents = record { client_id = "app"; tenant_id = "acme"; user_id = "ann"; scope = "read" } ∷ [];
}

abbrev grant_env : GrantEnv
grant_env = record {
  reading = at 10 "" "";
  consuming = at 10 "" "";
  creating = at 10 "r1" "refresh";
  begins = true;
  commits = true;
}

abbrev code_request : TokenRequest
code_request = record {
  form_parses = true;
  authorization = "Basic mcl_app:secret";
  form =
      ("grant_type", "authorization_code")
      ∷ ("code", "one")
      ∷ ("redirect_uri", "https://app/cb")
      ∷ ("code_verifier", "proof")
      ∷ [];
}

abbrev response : OauthTokenResponse
response = record {
  access_token = "jwt";
  expires_in = 3600;
  refresh_token = some "refresh";
  scope = "read";
}

answered : (token_endpoint tools grant_env code_request registered).0 ≡ replied response
unfolding token_endpoint consume_authorization_code exchange create_refresh_token lookup
answered = refl

token_endpoint-replied_example :
    (client : OauthClient) × Authenticated tools grant_env code_request registered response client
    × (ByCode tools grant_env code_request client registered response
        ⊎ (ByRefresh tools grant_env code_request client registered response
            ⊎ ByItself tools grant_env code_request client response))
token_endpoint-replied_example =
    token_endpoint-replied tools grant_env code_request registered response answered

abbrev session : Session
session = record { tenant_id = "acme"; user_id = some "ann" }

abbrev authorize_request : AuthorizeRequest
authorize_request = record {
  response_type = "code";
  client_id = "mcl_app";
  redirect_uri = "https://app/cb";
  scope = "read";
  state = "xyz";
  code_challenge = "proof";
  code_challenge_method = "S256";
}

abbrev authorize_env : AuthorizeEnv
authorize_env = record { reading = at 20 "" ""; consent = at 20 "" ""; writing = at 20 "c2" "two" }

authorized :
    (authorize (λ s. s) authorize_env authorize_request session registered).0
    ≡ replied (redirect_with_code "https://app/cb" "two" (some "xyz"))
unfolding authorize get_consent_scope create_authorization_code
authorized = refl

authorize-IsChecked_example :
    (client : OauthClient) × IsChecked authorize_request session registered client
authorize-IsChecked_example =
    authorize-IsChecked (λ s. s) authorize_env authorize_request session registered
      (redirect_with_code "https://app/cb" "two" (some "xyz")) authorized
