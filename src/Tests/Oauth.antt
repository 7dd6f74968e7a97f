-- ===== src/Tests/Oauth.antt =====
-- The theorems on go/oauthserver at concrete inputs.
use metap.Oauth.Cleanup.{
  CleanupCounts, cleanup_grace_period_seconds, sweep_all, successors_stored, left_over, out_of_fuel,
  delete_expired_in_batches, expired_code, expired_refresh, expired_pending,
}
use metap.Oauth.Cleanup.Sweeps.{count, sweep_all_lem, delete_expired_in_batches-some}
use metap.Prelude.{◌-◌, ◌≡◌, not, keep, ℕ, true, none, some, List, [], ◌∷◌, String, ◌≢◌, refl}
use metap.Oauth.Db.{ok, Env, RefreshRow, Db}
use metap.Oauth.Codes.{
  CreateCodeInput, AuthorizationCode, create_authorization_code, consume_authorization_code,
}
use metap.Oauth.Refresh.{
  RefreshToken, CreateRefreshInput, rotated, create_refresh_token, consume_refresh_token,
}
use metap.Oauth.History.{Op, create_code, consume_code, create_refresh, consume_refresh, step, run}
use metap.Oauth.History.Codes.{empty_db, consume_code_once}
use metap.Oauth.History.Rotation.{rotate_once, reuse_cuts_chain}

-- A digest for the examples; the theorems hold for every one.
abbrev plain : String → String
plain s = s

abbrev at : ℕ → String → String → Env
at now id raw = record {
  now = now;
  id = id;
  random = some raw;
  reads = true;
  inserts = true;
  updates = true;
}

abbrev code_input : CreateCodeInput
code_input = record {
  client_id = "app";
  tenant_id = "acme";
  user_id = "ann";
  redirect_uri = "https://app/cb";
  scope = "read";
  code_challenge = none;
  code_challenge_method = none;
}

abbrev issued : AuthorizationCode
issued = record {
  id = "c1";
  client_id = "app";
  tenant_id = "acme";
  user_id = "ann";
  redirect_uri = "https://app/cb";
  scope = "read";
  code_challenge = none;
  code_challenge_method = none;
}

abbrev code_history : List Op
code_history = create_code (at 0 "c1" "one") code_input ∷ []

abbrev later_history : List Op
later_history =
    create_code (at 20 "c2" "two") code_input
    ∷ consume_code (at 21 "" "") "one" "app" "https://app/cb"
    ∷ []

consume_code_once_example :
    (consume_authorization_code plain (at 30 "" "") "one" "app" "https://app/cb" (
      run plain later_history
        (consume_authorization_code plain
          (at 10 "" "")
          "one"
          "app"
          "https://app/cb"
          (run plain code_history empty_db)).1)).0
    ≢ ok (some issued)
unfolding run step create_authorization_code consume_authorization_code
consume_code_once_example =
    consume_code_once plain code_history later_history (at 10 "" "") (at 30 "" "") "one" "app"
      "https://app/cb" "app" "https://app/cb" issued issued refl refl

abbrev refresh_input : CreateRefreshInput
refresh_input = record { client_id = "app"; tenant_id = "acme"; user_id = "ann"; scope = "read" }

abbrev stored_token : String → RefreshToken
stored_token id = record {
  id = id;
  client_id = "app";
  tenant_id = "acme";
  user_id = "ann";
  scope = "read";
}

abbrev refresh_history : List Op
refresh_history = create_refresh (at 0 "r1" "first") refresh_input ∷ []

rotate_once_example :
    (consume_refresh_token plain (at 30 "r4" "fourth") "first" "app" (
      run plain
        (consume_refresh (at 20 "r3" "third") "second" "app" ∷ [])
        (consume_refresh_token plain
          (at 10 "r2" "second")
          "first"
          "app"
          (run plain refresh_history empty_db)).1)).0
    ≢ ok (rotated (stored_token "r4") "fourth")
unfolding run step create_refresh_token consume_refresh_token
rotate_once_example =
    rotate_once plain refresh_history (consume_refresh (at 20 "r3" "third") "second" "app" ∷ [])
      (at 10 "r2" "second") (at 30 "r4" "fourth") "first" "app" "app" (stored_token "r2")
      (stored_token "r4") "second" "fourth" refl refl

-- The first token has been rotated to the second one, and is presented again.
abbrev reuse_history : List Op
reuse_history =
    create_refresh (at 0 "r1" "first") refresh_input
    ∷ consume_refresh (at 10 "r2" "second") "first" "app"
    ∷ []

abbrev first_row : RefreshRow
first_row = record {
  id = "r1";
  token_hash = "first";
  client_id = "app";
  tenant_id = "acme";
  user_id = "ann";
  scope = "read";
  expires_at = 2592000;
  revoked_at = some 10;
  replaced_by = some "r2";
}

abbrev second_row : RefreshRow
second_row = record {
  id = "r2";
  token_hash = "second";
  client_id = "app";
  tenant_id = "acme";
  user_id = "ann";
  scope = "read";
  expires_at = 2592010;
  revoked_at = none;
  replaced_by = none;
}

reuse_cuts_chain_example :
    (consume_refresh_token plain (at 40 "r5" "fifth") "second" "app" (
      run plain
        (create_refresh (at 30 "r4" "fourth") refresh_input ∷ [])
        (consume_refresh_token plain
          (at 20 "r3" "third")
          "first"
          "app"
          (run plain reuse_history empty_db)).1)).0
    ≢ ok (rotated (stored_token "r5") "fifth")
unfolding run step create_refresh_token consume_refresh_token
reuse_cuts_chain_example =
    reuse_cuts_chain plain reuse_history (create_refresh (at 30 "r4" "fourth") refresh_input ∷ [])
      (at 20 "r3" "third") (at 40 "r5" "fifth") "first" "second" "app" "app" first_row second_row
      (stored_token "r5") "fifth" refl refl refl refl refl

-- A day and a half after the code was issued, with a batch size that is raised to one.
abbrev after_a_day : Db
after_a_day = run plain code_history empty_db

-- Two tokens of one chain, both revoked for more than the grace period.
abbrev chain_db : List RefreshRow → Db
chain_db rows = record { clients = []; codes = []; refreshes = rows; pendings = []; consents = [] }

abbrev old_second : RefreshRow
old_second = record second_row { revoked_at = some 20 }

abbrev one_code : CleanupCounts
one_code = record {
  authorization_codes_deleted = 1;
  refresh_tokens_deleted = 0;
  pending_authorizations_deleted = 0;
}

code_deleted :
    (delete_expired_in_batches (λ _. true) (λ _. true) (λ _. true) 130000 0 after_a_day).0
    ≡ some one_code
unfolding run step create_authorization_code delete_expired_in_batches sweep_all
code_deleted = refl

delete_expired_in_batches-some_example :
    (one_code ≡ record {
      authorization_codes_deleted =
          count (expired_code (130000 - cleanup_grace_period_seconds)) after_a_day.codes;
      refresh_tokens_deleted =
          count (expired_refresh (130000 - cleanup_grace_period_seconds)) after_a_day.refreshes;
      pending_authorizations_deleted =
          count (expired_pending (130000 - cleanup_grace_period_seconds)) after_a_day.pendings;
    })
    × ((delete_expired_in_batches (λ _. true) (λ _. true) (λ _. true) 130000 0 after_a_day).1
        ≡ record after_a_day {
          codes =
              keep
                (λ r. not (expired_code (130000 - cleanup_grace_period_seconds) r))
                after_a_day.codes;
          refreshes =
              keep
                (λ r. not (expired_refresh (130000 - cleanup_grace_period_seconds) r))
                after_a_day.refreshes;
          pendings =
              keep
                (λ r. not (expired_pending (130000 - cleanup_grace_period_seconds) r))
                after_a_day.pendings;
        })
delete_expired_in_batches-some_example =
    delete_expired_in_batches-some (λ _. true) (λ _. true) (λ _. true) 130000 0 after_a_day one_code
      code_deleted

-- One row at a time, a token before its successor: both go.
predecessor_first :
    (delete_expired_in_batches
      (λ _. true)
      (λ _. true)
      (λ _. true)
      3000000
      1
      (chain_db (first_row ∷ old_second ∷ []))).1.refreshes
    ≡ []
unfolding delete_expired_in_batches sweep_all
predecessor_first = refl

-- The successor first: the foreign key stops the cleanup, and both stay.
successor_first :
    delete_expired_in_batches
      (λ _. true)
      (λ _. true)
      (λ _. true)
      3000000
      1
      (chain_db (old_second ∷ first_row ∷ []))
    ≡ (none, chain_db (old_second ∷ first_row ∷ []))
unfolding delete_expired_in_batches sweep_all
successor_first = refl

sweep_all_lem_example :
    (sweep_all
        (λ _. true)
        successors_stored
        1
        (expired_refresh 2900000)
        (old_second ∷ first_row ∷ [])
      ≢ out_of_fuel)
    × (keep
          (λ r. not (expired_refresh 2900000 r))
          (left_over (old_second ∷ first_row ∷ []) (
            sweep_all
              (λ _. true)
              successors_stored
              1
              (expired_refresh 2900000)
              (old_second ∷ first_row ∷ [])))
        ≡ keep (λ r. not (expired_refresh 2900000 r)) (old_second ∷ first_row ∷ []))
sweep_all_lem_example =
    sweep_all_lem (λ _. true) successors_stored 0 (expired_refresh 2900000)
      (old_second ∷ first_row ∷ [])
