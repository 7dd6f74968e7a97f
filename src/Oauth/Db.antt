-- ===== src/Oauth/Db.antt =====
-- The tables of go/oauthserver (migrations/0034_oauth2.sql, 0035_oauth2_consent.sql) as lists of
-- rows, what a statement does to a table, and what the environment decides in a call.
use metap.Prelude.{ℕ, Bool, true, false, Option, none, some, List, [], ◌∷◌, String, if◌then◌else◌}

-- Go's (value, error).
pub data Result {ℓ} (A : Type ℓ) : Type ℓ where
  ok : A → Result A
  err : Result A

-- Times are seconds. A statement that the database refuses is `false`.
pub record Env : Type 0 where
  pub now : ℕ
  -- gen_random_uuid() of a row that is inserted.
  pub id : String
  -- GenerateOpaqueToken; `none` when the source of randomness fails.
  pub random : Option String
  pub reads : Bool
  pub inserts : Bool
  pub updates : Bool

pub record OauthClient : Type 0 where
  pub id : String
  pub tenant_id : String
  pub client_id : String
  pub client_secret_hash : String
  pub name : String
  pub redirect_uris : List String
  pub allowed_scopes : List String
  pub is_confidential : Bool
  pub revoked_at : Option ℕ
  pub service_user_id : Option String

pub record CodeRow : Type 0 where
  pub id : String
  pub code_hash : String
  pub client_id : String
  pub tenant_id : String
  pub user_id : String
  pub redirect_uri : String
  pub scope : String
  pub code_challenge : Option String
  pub code_challenge_method : Option String
  pub expires_at : ℕ
  pub used_at : Option ℕ

pub record RefreshRow : Type 0 where
  pub id : String
  pub token_hash : String
  pub client_id : String
  pub tenant_id : String
  pub user_id : String
  pub scope : String
  pub expires_at : ℕ
  pub revoked_at : Option ℕ
  pub replaced_by : Option String

pub record PendingRow : Type 0 where
  pub id : String
  pub client_id : String
  pub tenant_id : String
  pub user_id : String
  pub redirect_uri : String
  pub scope : String
  pub code_challenge : Option String
  pub code_challenge_method : Option String
  pub client_state : Option String
  pub expires_at : ℕ

pub record ConsentRow : Type 0 where
  pub client_id : String
  pub tenant_id : String
  pub user_id : String
  pub scope : String

pub record Db : Type 0 where
  pub clients : List OauthClient
  pub codes : List CodeRow
  pub refreshes : List RefreshRow
  pub pendings : List PendingRow
  pub consents : List ConsentRow

abbrev pub is_none {ℓ} : {A : Type ℓ} → Option A → Bool
is_none none = true
is_none (some _) = false

module _ {ℓ} {A : Type ℓ} where
  -- SELECT ... WHERE p, one row of it.
  abbrev pub find : (A → Bool) → List A → Option A
  find p [] = none
  find p (x ∷ xs) = let rest = find p xs in if p x then some x else rest

  -- UPDATE ... SET g WHERE p
  abbrev pub update_where : (A → Bool) → (A → A) → List A → List A
  update_where p g [] = []
  update_where p g (x ∷ xs) = (if p x then g x else x) ∷ update_where p g xs
