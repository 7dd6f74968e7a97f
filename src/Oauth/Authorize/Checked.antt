-- ===== src/Oauth/Authorize/Checked.antt =====
-- What has been checked when the authorization endpoint of go/httpserver/routes_oauth2.go answers.
use metap.Prelude.{
  true, none, some, String, ◌≡◌, ◌≢◌, ◌⊎◌, ◌==◌, mem_text, eq_iff, arith, Bool-cases, Option-cases,
  inl, inr,
}
use metap.Oauth.Db.{OauthClient, Db, find}
use metap.Oauth.Scope.{scope_is_subset, join_tokens}
use metap.Oauth.Grants.{replied}
use metap.Oauth.Authorize.{
  Session, AuthorizeRequest, AuthorizeAnswer, AuthorizeEnv, check_client, authorize,
}

module _ (r : AuthorizeRequest) (session : Session) (db : Db) where
  -- A request that may go to the user of the session.
  pub record IsChecked (client : OauthClient) : Type 0 where
    pub is_session : session.user_id ≢ none
    pub found : find (λ c. c.client_id == r.client_id) db.clients ≡ some client
    pub live : client.revoked_at ≡ none
    pub own_tenant : client.tenant_id ≡ session.tenant_id
    pub registered : mem_text r.redirect_uri client.redirect_uris ≡ true
    pub challenged : (client.is_confidential ≡ true) ⊎ (r.code_challenge ≢ "")
    pub method : (r.code_challenge_method ≡ "") ⊎ (r.code_challenge_method ≡ "S256")
    pub within : scope_is_subset r.scope (join_tokens client.allowed_scopes) ≡ true

module _ (hash_token : String → String) (e : AuthorizeEnv) (r : AuthorizeRequest)
    (session : Session) (db : Db) (answer : AuthorizeAnswer) where
  -- A code or a consent screen is given only in a session with a user, for a registered client of the
  -- session's tenant that is not revoked, for one of its redirect URIs, with a challenge if the client
  -- is public, with no other method than S256, and for a scope within what the client may ask for.
  pub authorize-IsChecked :
      (authorize hash_token e r session db).0 ≡ replied answer
      → (client : OauthClient) × IsChecked r session db client
  unfolding authorize check_client
  authorize-IsChecked h = elim (Option-cases session.user_id) [
    | inl nobody ↦ absurd (ground (arith, nobody))
    | inr (user, known) ↦
        elim (Option-cases (find (λ (c : OauthClient). c.client_id == r.client_id) db.clients)) [
          | inl unknown ↦ absurd (ground (arith, known, unknown))
          | inr (client, found) ↦ (
            client,
            let passed : (check_client hash_token e r client session.tenant_id user db).0
                    ≡ replied answer =
                  ground (arith, known, found) in
                record {
                  is_session = ground (arith, known);
                  found = found;
                  live = ground (arith, passed);
                  own_tenant = ground (arith, passed, eq_iff client.tenant_id session.tenant_id);
                  registered = ground (arith, passed);
                  challenged = elim (Bool-cases client.is_confidential) [
                    | inl confidential ↦ inl confidential
                    | inr public ↦ inr (ground (arith, passed, public, eq_iff r.code_challenge ""))
                  ];
                  method = elim (Bool-cases (r.code_challenge_method == "")) [
                    | inl empty ↦ inl ((eq_iff r.code_challenge_method "").0 empty)
                    | inr given ↦
                        inr (ground (arith, passed, given, eq_iff r.code_challenge_method "S256"))
                  ];
                  within = ground (arith, passed);
                },
          )
        ]
  ]
