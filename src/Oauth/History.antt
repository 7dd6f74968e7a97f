-- ===== src/Oauth/History.antt =====
-- The operations of go/oauthserver as steps on the tables: what a server does, in whatever order its
-- requests come, is a list of them.
pub mod Rows
pub mod Tables
pub mod Codes
pub mod Refreshes
pub mod Rotation
use metap.Prelude.{ℕ, Bool, Option, List, [], ◌∷◌, String}
use metap.Oauth.Db.{Env, Db}
use metap.Oauth.Codes.{CreateCodeInput, create_authorization_code, consume_authorization_code}
use metap.Oauth.Consents.{
  CreatePendingInput, create_pending_authorization, consume_pending_authorization, record_consent,
}
use metap.Oauth.Refresh.{
  CreateRefreshInput, create_refresh_token, consume_refresh_token, revoke_refresh_token,
}
use metap.Oauth.Clients.{CreateClientInput, create_client, revoke_client}
use metap.Oauth.Cleanup.{delete_expired_in_batches}

pub data Op : Type 0 where
  create_code : Env → CreateCodeInput → Op
  consume_code : Env → String → String → String → Op
  create_pending : Env → CreatePendingInput → Op
  consume_pending : Env → String → String → String → Op
  grant_consent : Env → String → String → String → String → Op
  create_refresh : Env → CreateRefreshInput → Op
  consume_refresh : Env → String → String → Op
  revoke_refresh : Env → String → String → Op
  register_client : Env → Option String → CreateClientInput → Op
  remove_client : Env → String → String → Op
  clean_up : (ℕ → Bool) → (ℕ → Bool) → (ℕ → Bool) → ℕ → ℕ → Op

module _ (hash_token : String → String) where
  unfoldable pub step : Op → Db → Db
  step (create_code e input) db = (create_authorization_code hash_token e input db).1
  step (consume_code e raw client uri) db =
      (consume_authorization_code hash_token e raw client uri db).1
  step (create_pending e input) db = (create_pending_authorization e input db).1
  step (consume_pending e id tenant user) db = (consume_pending_authorization e id tenant user db).1
  step (grant_consent e tenant client user scope) db =
      (record_consent e tenant client user scope db).1
  step (create_refresh e input) db = (create_refresh_token hash_token e input db).1
  step (consume_refresh e raw client) db = (consume_refresh_token hash_token e raw client db).1
  step (revoke_refresh e raw client) db = (revoke_refresh_token hash_token e raw client db).1
  step (register_client e secret input) db = (create_client hash_token e secret input db).1
  step (remove_client e tenant id) db = (revoke_client e tenant id db).1
  step (clean_up codes tokens pendings now batch) db =
      (delete_expired_in_batches codes tokens pendings now batch db).1

  unfoldable pub run : List Op → Db → Db
  run [] db = db
  run (op ∷ ops) db = run ops (step op db)
