-- ===== src/Oauth/Grants/Issued.antt =====
-- On what a token of go/httpserver/routes_oauth2.go rests.
use metap.Prelude.{
  true, none, some, String, ◌≡◌, ◌⊎◌, refl, ◌==◌, ltb, ◌∙◌, ap, arith, Bool-cases, Option-cases,
  inl, inr,
}
use metap.Oauth.Db.{Result, ok, err, OauthClient, CodeRow, RefreshRow, Db, find}
use metap.Oauth.Scope.{scope_is_subset}
use metap.Oauth.Codes.{is_consumable, consume_authorization_code}
use metap.Oauth.Refresh.{
  RefreshToken, ConsumeRefreshOutcome, rotated, invalid, reused, is_presented,
  consume_refresh_token, consume_row,
}
use metap.Oauth.Grants.{
  replied, TokenRequest, form_value, GrantEnv, TokenTools, OauthTokenResponse, extract_client_auth,
  pkce_passes, exchange, authorization_code_grant, conclude_refresh, refresh_token_grant,
  client_credentials_grant, dispatch_grant, token_endpoint,
}

module _ (t : TokenTools) (g : GrantEnv) (r : TokenRequest) (client : OauthClient) where
  -- The code that the request presents is stored for the client and the redirect URI, unused and
  -- unexpired; its verifier passes; the response has the code's scope.
  abbrev pub ByCode : Db → OauthTokenResponse → Type 0
  ByCode db response =
      (row : CodeRow) × (find
          (is_consumable g.consuming.now (t.hash_token (form_value r "code")) client.id
            (form_value r "redirect_uri"))
          db.codes
        ≡ some row)
      × (pkce_passes t row.code_challenge (form_value r "code_verifier") ≡ true)
      × (response.scope ≡ row.scope)

  -- The token that the request presents is stored for the client, neither revoked nor expired; the
  -- response has at most its scope.
  abbrev pub ByRefresh : Db → OauthTokenResponse → Type 0
  ByRefresh db response =
      (row : RefreshRow) × (find
          (is_presented (t.hash_token (form_value r "refresh_token")) client.id) db.refreshes
        ≡ some row)
      × (row.revoked_at ≡ none)
      × (ltb g.consuming.now row.expires_at ≡ true)
      × (scope_is_subset response.scope row.scope ≡ true)

  -- A confidential client acts as itself, with no scope.
  abbrev pub ByItself : OauthTokenResponse → Type 0
  ByItself response = (client.is_confidential ≡ true) × (response.scope ≡ "")

  code_grounds :
      (db : Db) (response : OauthTokenResponse)
      → (authorization_code_grant t g r client db).0 ≡ replied response
      → ByCode db response
  unfolding authorization_code_grant consume_authorization_code exchange
  code_grounds db response h =
      let here =
        is_consumable g.consuming.now (t.hash_token (form_value r "code")) client.id
          (form_value r "redirect_uri") in
      elim (Option-cases (find here db.codes)) [
        | inl absent ↦ absurd (ground (arith, absent))
        | inr (row, found) ↦ (row, found, ground (arith, found), ground (arith, found))
      ]

  -- A consumption that rotates found a live token, whose scope the new one has.
  rotated_grounds :
      (db : Db) (new : RefreshToken) (raw : String)
      → (consume_refresh_token t.hash_token g.consuming
          (form_value r "refresh_token")
          client.id
          db).0
        ≡ ok (rotated new raw)
      → (row : RefreshRow) × (find
            (is_presented (t.hash_token (form_value r "refresh_token")) client.id)
            db.refreshes
          ≡ some row)
        × (row.revoked_at ≡ none)
        × (ltb g.consuming.now row.expires_at ≡ true)
        × (new.scope ≡ row.scope)
  unfolding consume_refresh_token consume_row
  rotated_grounds db new raw h =
      let here = is_presented (t.hash_token (form_value r "refresh_token")) client.id in
      elim (Option-cases (find here db.refreshes)) [
        | inl absent ↦ absurd (ground (arith, absent))
        | inr (row, found) ↦ elim (Option-cases g.consuming.random) [
          | inl failed ↦ absurd (ground (arith, found, failed))
          | inr (drawn_raw, drawn) ↦ (
            row,
            found,
            ground (arith, found, drawn),
            ground (arith, found, drawn),
            ground (arith, found, drawn),
          )
        ]
      ]

  concluded_grounds :
      (outcome : ConsumeRefreshOutcome) (before after : Db) (response : OauthTokenResponse)
      → (conclude_refresh t g.commits r client outcome before after).0 ≡ replied response
      → (new : RefreshToken) × (raw : String) × (outcome ≡ rotated new raw)
        × (scope_is_subset response.scope new.scope ≡ true)
  unfolding conclude_refresh
  concluded_grounds invalid before after response h = absurd (ground arith)
  concluded_grounds reused before after response h = absurd (ground arith)
  concluded_grounds (rotated new raw) before after response h = (new, raw, refl, ground arith)

  refresh_grounds :
      (db : Db) (response : OauthTokenResponse)
      → (refresh_token_grant t g r client db).0 ≡ replied response
      → ByRefresh db response
  unfolding refresh_token_grant
  refresh_grounds db response h =
      let consumed =
        consume_refresh_token t.hash_token g.consuming (form_value r "refresh_token") client.id
          db in
      refresh_cases consumed.0 refl
    where
      refresh_cases :
          (o : Result ConsumeRefreshOutcome)
          → (consume_refresh_token t.hash_token g.consuming
              (form_value r "refresh_token")
              client.id
              db).0
            ≡ o
          → ByRefresh db response
      refresh_cases err e = absurd (ground (arith, e))
      refresh_cases (ok outcome) e =
          let after =
            (consume_refresh_token t.hash_token g.consuming (form_value r "refresh_token") client.id
              db).1 in
          let concluded : (conclude_refresh t g.commits r client outcome db after).0
              ≡ replied response =
            ground (arith, e) in
          let (new, raw, turned, within) = concluded_grounds outcome db after response concluded in
          let (row, found, live, unexpired, same) = rotated_grounds db new raw (e ∙ ap ok turned) in
          (row, found, live, unexpired, rw (← same) within)

  itself_grounds :
      (response : OauthTokenResponse)
      → client_credentials_grant t client ≡ replied response
      → ByItself response
  unfolding client_credentials_grant
  itself_grounds response h = ground arith

  dispatched_grounds :
      (db : Db) (response : OauthTokenResponse)
      → (dispatch_grant t g r client db).0 ≡ replied response
      → ByCode db response ⊎ (ByRefresh db response ⊎ ByItself response)
  unfolding dispatch_grant
  dispatched_grounds db response h =
      let grant = form_value r "grant_type" in
      elim (Bool-cases (grant == "authorization_code")) [
        | inl code ↦ inl (code_grounds db response (rw code at h))
        | inr not_code ↦ elim (Bool-cases (grant == "refresh_token")) [
          | inl refresh ↦ inr (inl (refresh_grounds db response (rw (not_code, refresh) at h)))
          | inr not_refresh ↦ elim (Bool-cases (grant == "client_credentials")) [
            | inl itself ↦
                inr (inr (itself_grounds response (rw (not_code, not_refresh, itself) at h)))
            | inr other ↦ absurd (ground (arith, not_code, not_refresh, other))
          ]
        ]
      ]

module _ (t : TokenTools) (g : GrantEnv) (r : TokenRequest) (db : Db)
    (response : OauthTokenResponse) where
  -- The client that the credentials of the request name, as it is stored.
  abbrev pub Authenticated : OauthClient → Type 0
  Authenticated client =
      (credentials : String × String) × (extract_client_auth t r ≡ some credentials)
      × (find (λ c. c.client_id == credentials.0) db.clients ≡ some client)
      × ((t.hash_token credentials.1 == client.client_secret_hash) ≡ true)
      × (client.revoked_at ≡ none)

  -- A token is issued only to a registered client that is not revoked and that has presented its
  -- secret, and only on one of three grounds: a stored code of that client and redirect URI, unused,
  -- unexpired, with a verifier that passes its challenge, and the response has the code's scope; a
  -- stored refresh token of that client, neither revoked nor expired, and the response has at most
  -- its scope; or the client is confidential and asked for itself, and the response has no scope.
  pub token_endpoint-replied :
      (token_endpoint t g r db).0 ≡ replied response
      → (client : OauthClient) × Authenticated client
        × (ByCode t g r client db response
            ⊎ (ByRefresh t g r client db response ⊎ ByItself t g r client response))
  unfolding token_endpoint
  token_endpoint-replied h = elim (Option-cases (extract_client_auth t r)) [
    | inl nobody ↦ absurd (ground (arith, nobody))
    | inr ((id, secret), named) ↦
        elim (Option-cases (find (λ (c : OauthClient). c.client_id == id) db.clients)) [
          | inl unknown ↦ absurd (ground (arith, named, unknown))
          | inr (client, found) ↦ (
            client,
            (
              (id, secret),
              named,
              found,
              ground (arith, named, found),
              ground (arith, named, found),
            ),
            dispatched_grounds t g r client db response (ground (arith, named, found)),
          )
        ]
  ]
