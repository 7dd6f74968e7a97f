-- ===== src/Oauth/Refresh.antt =====
-- go/oauthserver/refresh.go. An error makes the caller roll its transaction back, so it comes with
-- the tables as they were.
use metap.Prelude.{
  ℕ, ◌+◌, ◌*◌, Bool, true, false, not, none, some, List, [], ◌∷◌, ◌++◌, String, ◌==◌, ◌&&◌, ◌||◌,
  any, ltb, if◌then◌else◌,
}
use metap.Oauth.Db.{Result, ok, err, Env, RefreshRow, Db, is_none, find, update_where}

abbrev pub refresh_token_ttl_seconds : ℕ
refresh_token_ttl_seconds = 30 * 24 * 3600

pub record RefreshToken : Type 0 where
  pub id : String
  pub client_id : String
  pub tenant_id : String
  pub user_id : String
  pub scope : String

pub record CreateRefreshInput : Type 0 where
  pub client_id : String
  pub tenant_id : String
  pub user_id : String
  pub scope : String

pub data ConsumeRefreshOutcome : Type 0 where
  rotated : RefreshToken → String → ConsumeRefreshOutcome
  invalid : ConsumeRefreshOutcome
  reused : ConsumeRefreshOutcome

abbrev pub refresh_row : Env → String → CreateRefreshInput → RefreshRow
refresh_row e hash input = record {
  id = e.id;
  token_hash = hash;
  client_id = input.client_id;
  tenant_id = input.tenant_id;
  user_id = input.user_id;
  scope = input.scope;
  expires_at = e.now + refresh_token_ttl_seconds;
  revoked_at = none;
  replaced_by = none;
}

abbrev scan_refresh_token : RefreshRow → RefreshToken
scan_refresh_token r = record {
  id = r.id;
  client_id = r.client_id;
  tenant_id = r.tenant_id;
  user_id = r.user_id;
  scope = r.scope;
}

-- PRIMARY KEY (id), UNIQUE (token_hash)
abbrev pub has_token : String → String → List RefreshRow → Bool
has_token id hash rows = any (λ r. r.token_hash == hash) rows || any (λ r. r.id == id) rows

-- What is read of a token of the client.
abbrev pub is_presented : String → String → RefreshRow → Bool
is_presented hash client_id r = r.token_hash == hash && r.client_id == client_id

-- The live tokens of a client for a user.
abbrev pub in_chain : String → String → RefreshRow → Bool
in_chain client_id user_id r =
    r.client_id == client_id && r.user_id == user_id && is_none r.revoked_at

abbrev pub revoke : ℕ → RefreshRow → RefreshRow
revoke now r = record r { revoked_at = some now }

abbrev pub replace : ℕ → String → RefreshRow → RefreshRow
replace now new_id r = record r { revoked_at = some now; replaced_by = some new_id }

module _ (hash_token : String → String) where
  insert_refresh : Env → String → CreateRefreshInput → Db → Result (RefreshToken × String) × Db
  insert_refresh e raw input db =
      if e.inserts && not (has_token e.id (hash_token raw) db.refreshes)
      then (
        ok (scan_refresh_token (refresh_row e (hash_token raw) input), raw),
        record db { refreshes = db.refreshes ++ refresh_row e (hash_token raw) input ∷ [] },
      )
      else (err, db)

  unfoldable pub create_refresh_token :
      Env → CreateRefreshInput → Db → Result (RefreshToken × String) × Db
  unfolding insert_refresh
  create_refresh_token e input db = elim e.random [
    | none ↦ (err, db)
    | some raw ↦ insert_refresh e raw input db
  ]

  -- The token of the stored row has been rotated or revoked before.
  revoke_chain : Env → String → RefreshRow → Db → Result ConsumeRefreshOutcome × Db
  revoke_chain e client_id r db =
      if e.updates
      then (
        ok reused,
        record db {
          refreshes = update_where (in_chain client_id r.user_id) (revoke e.now) db.refreshes;
        },
      )
      else (err, db)

  -- UPDATE ... SET revoked_at, replaced_by WHERE id
  replace_old : Env → String → RefreshToken × String → Db → Db → Result ConsumeRefreshOutcome × Db
  replace_old e id (new, raw) before db =
      if e.updates
      then (
        ok (rotated new raw),
        record db {
          refreshes = update_where (λ r. r.id == id) (replace e.now new.id) db.refreshes;
        },
      )
      else (err, before)

  -- A live token: its successor is stored, and it is marked as replaced.
  rotate : Env → String → RefreshRow → Db → Result ConsumeRefreshOutcome × Db
  unfolding create_refresh_token replace_old
  rotate e client_id r db =
      let created =
        create_refresh_token e
          (record {
            client_id = client_id;
            tenant_id = r.tenant_id;
            user_id = r.user_id;
            scope = r.scope;
          })
          db in
      elim created.0 [ err ↦ (err, db) | ok new ↦ replace_old e r.id new db created.1 ]

  -- The writes that follow the SELECT of the presented token.
  unfoldable pub consume_row : Env → String → RefreshRow → Db → Result ConsumeRefreshOutcome × Db
  unfolding revoke_chain rotate
  consume_row e client_id r db =
      if not (is_none r.revoked_at)
      then revoke_chain e client_id r db
      else if not (ltb e.now r.expires_at)
      then (ok invalid, db)
      else rotate e client_id r db

  unfoldable pub consume_refresh_token :
      Env → String → String → Db → Result ConsumeRefreshOutcome × Db
  unfolding consume_row
  consume_refresh_token e raw client_id db =
      if not e.reads
      then (err, db)
      else elim (find (is_presented (hash_token raw) client_id) db.refreshes) [
        | none ↦ (ok invalid, db)
        | some r ↦ consume_row e client_id r db
      ]

  -- The result is false for an error.
  unfoldable pub revoke_refresh_token : Env → String → String → Db → Bool × Db
  revoke_refresh_token e raw client_id db =
      let here =
        λ (r : RefreshRow). is_presented (hash_token raw) client_id r && is_none r.revoked_at in
      if e.updates
      then (true, record db { refreshes = update_where here (revoke e.now) db.refreshes })
      else (false, db)
