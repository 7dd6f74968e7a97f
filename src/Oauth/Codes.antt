-- ===== src/Oauth/Codes.antt =====
-- go/oauthserver/code.go and pkce.go. `hash_token` is HashToken (crypto/sha256, in hexadecimal).
use metap.Prelude.{
  ℕ, ◌+◌, Bool, not, Option, none, some, List, [], ◌∷◌, ◌++◌, String, ◌==◌, ◌&&◌, ◌||◌, any, ltb,
  if◌then◌else◌,
}
use metap.Oauth.Db.{Result, ok, err, Env, CodeRow, Db, is_none, find, update_where}

abbrev pub authorization_code_ttl_seconds : ℕ
authorization_code_ttl_seconds = 60

pub record CreateCodeInput : Type 0 where
  pub client_id : String
  pub tenant_id : String
  pub user_id : String
  pub redirect_uri : String
  pub scope : String
  pub code_challenge : Option String
  pub code_challenge_method : Option String

pub record AuthorizationCode : Type 0 where
  pub id : String
  pub client_id : String
  pub tenant_id : String
  pub user_id : String
  pub redirect_uri : String
  pub scope : String
  pub code_challenge : Option String
  pub code_challenge_method : Option String

abbrev pub scan_code : CodeRow → AuthorizationCode
scan_code r = record {
  id = r.id;
  client_id = r.client_id;
  tenant_id = r.tenant_id;
  user_id = r.user_id;
  redirect_uri = r.redirect_uri;
  scope = r.scope;
  code_challenge = r.code_challenge;
  code_challenge_method = r.code_challenge_method;
}

abbrev pub code_row : Env → String → CreateCodeInput → CodeRow
code_row e hash input = record {
  id = e.id;
  code_hash = hash;
  client_id = input.client_id;
  tenant_id = input.tenant_id;
  user_id = input.user_id;
  redirect_uri = input.redirect_uri;
  scope = input.scope;
  code_challenge = input.code_challenge;
  code_challenge_method = input.code_challenge_method;
  expires_at = e.now + authorization_code_ttl_seconds;
  used_at = none;
}

-- PRIMARY KEY (id), UNIQUE (code_hash)
abbrev pub has_code : String → String → List CodeRow → Bool
has_code id hash codes = any (λ r. r.code_hash == hash) codes || any (λ r. r.id == id) codes

-- The WHERE clause of the consumption.
abbrev pub is_consumable : ℕ → String → String → String → CodeRow → Bool
is_consumable now hash client_id redirect_uri r =
    r.code_hash == hash
    && r.client_id == client_id
    && r.redirect_uri == redirect_uri
    && is_none r.used_at
    && ltb now r.expires_at

abbrev pub mark_used : ℕ → CodeRow → CodeRow
mark_used now r = record r { used_at = some now }

abbrev scan_found : Option CodeRow → Option AuthorizationCode
scan_found none = none
scan_found (some r) = some (scan_code r)

module _ (hash_token : String → String) where
  insert_code : Env → String → CreateCodeInput → Db → Result (AuthorizationCode × String) × Db
  insert_code e raw input db =
      if e.inserts && not (has_code e.id (hash_token raw) db.codes)
      then (
        ok (scan_code (code_row e (hash_token raw) input), raw),
        record db { codes = db.codes ++ code_row e (hash_token raw) input ∷ [] },
      )
      else (err, db)

  unfoldable pub create_authorization_code :
      Env → CreateCodeInput → Db → Result (AuthorizationCode × String) × Db
  unfolding insert_code
  create_authorization_code e input db = elim e.random [
    | none ↦ (err, db)
    | some raw ↦ insert_code e raw input db
  ]

  unfoldable pub consume_authorization_code :
      Env → String → String → String → Db → Result (Option AuthorizationCode) × Db
  consume_authorization_code e raw client_id redirect_uri db =
      let here = is_consumable e.now (hash_token raw) client_id redirect_uri in
      if e.updates
      then (
        ok (scan_found (find here db.codes)),
        record db { codes = update_where here (mark_used e.now) db.codes },
      )
      else (err, db)

-- VerifyPKCE; `s256` is the base64url form of the SHA-256 digest.
unfoldable pub verify_pkce : (String → String) → String → String → Bool
verify_pkce s256 code_verifier code_challenge = s256 code_verifier == code_challenge
