-- ===== src/Oauth/History/Codes.antt =====
-- Authorization codes of go/oauthserver/code.go over the histories of a server.
use metap.Prelude.{
  ℕ, suc, ◌-◌, Bool, true, false, not, none, some, List, [], ◌∷◌, ◌++◌, String, ◌≡◌, ◌≢◌, refl,
  ◌==◌, any, all, length, eq_iff, arith, Option-cases, inl, inr,
}
use metap.Oauth.Db.{ok, Env, CodeRow, Db, is_none, find, update_where}
use metap.Oauth.Codes.{
  CreateCodeInput, AuthorizationCode, code_row, has_code, is_consumable, mark_used,
  create_authorization_code, consume_authorization_code,
}
use metap.Oauth.Consents.{
  create_pending_authorization, consume_pending_authorization, record_consent,
}
use metap.Oauth.Refresh.{create_refresh_token, consume_refresh_token, revoke_refresh_token}
use metap.Oauth.Clients.{create_client, revoke_client}
use metap.Oauth.Cleanup.{
  unreferenced, delete_expired_in_batches, sweep_all, left_over, at_least_one, expired_code,
  cleanup_grace_period_seconds,
}
use metap.Oauth.History.{
  Op, create_code, consume_code, create_pending, consume_pending, grant_consent, create_refresh,
  consume_refresh, revoke_refresh, register_client, remove_client, clean_up, step, run,
}
use metap.Oauth.History.Rows.{
  IsUnique, all-append_one, all-update_where, append_one-IsUnique, update_where-IsUnique,
  all-delete_in_batches, delete_in_batches-IsUnique,
}
use metap.Oauth.History.Tables.{or_other, find-spent, spend_found, found_passes}

abbrev code_hash_of : CodeRow → String
code_hash_of r = r.code_hash

abbrev is_used : CodeRow → Bool
is_used r = not (is_none r.used_at)

-- The tables before any request.
abbrev pub empty_db : Db
empty_db = record { clients = []; codes = []; refreshes = []; pendings = []; consents = [] }

-- The operation issues a code whose raw text passes the test.
abbrev pub draws_code : (String → Bool) → Op → Bool
draws_code bad (create_code e input) = elim e.random [ none ↦ false | some raw ↦ bad raw ]
draws_code bad _ = false

draws_nothing : (ops : List Op) → any (draws_code (λ _. false)) ops ≡ false
draws_nothing [] = refl
draws_nothing (op ∷ ops) = ground (arith, draws_none op, draws_nothing ops)
  where
    draws_none : (op : Op) → draws_code (λ _. false) op ≡ false
    draws_none (create_code e input) = elim (Option-cases e.random) [
      | inl failed ↦ rw failed refl
      | inr (raw, drawn) ↦ rw drawn refl
    ]
    draws_none op = refl

module _ (hash_token : String → String) where
  -- An operation that does not write codes.
  consume_refresh-codes :
      (e : Env) (raw client : String) (db : Db)
      → (consume_refresh_token hash_token e raw client db).1.codes ≡ db.codes
  unfolding consume_refresh_token create_refresh_token
  consume_refresh-codes e raw client db = ground arith

  record_consent-codes :
      (e : Env) (tenant client user scope : String) (db : Db)
      → (record_consent e tenant client user scope db).1.codes ≡ db.codes
  unfolding record_consent
  record_consent-codes e tenant client user scope db = ground arith

  clean_up-codes :
      (codes tokens pendings : ℕ → Bool) (now batch : ℕ) (db : Db)
      → (delete_expired_in_batches codes tokens pendings now batch db).1.codes
        ≡ left_over db.codes (
            sweep_all codes unreferenced
              (at_least_one batch)
              (expired_code (now - cleanup_grace_period_seconds))
              db.codes)
  unfolding delete_expired_in_batches
  clean_up-codes codes tokens pendings now batch db = ground arith

  -- Any property of the table that the three writes of codes keep is kept by every operation.
  module _ (P : List CodeRow → Type 0) (bad : String → Bool)
      (insert_keeps : (e : Env) (raw : String) (input : CreateCodeInput) (codes : List CodeRow)
        → bad raw ≡ false
        → has_code e.id (hash_token raw) codes ≡ false
        → P codes
        → P (codes ++ code_row e (hash_token raw) input ∷ []))
      (use_keeps : (q : CodeRow → Bool) (now : ℕ) (codes : List CodeRow)
        → P codes
        → P (update_where q (mark_used now) codes))
      (sweep_keeps : (up : ℕ → Bool) (batch : ℕ) (q : CodeRow → Bool) (codes : List CodeRow)
        → P codes
        → P (left_over codes (sweep_all up unreferenced batch q codes))) where
    step_keeps :
        (op : Op) (db : Db)
        → draws_code bad op ≡ false
        → P db.codes
        → P (step hash_token op db).codes
    unfolding step create_authorization_code consume_authorization_code
    step_keeps (create_code e input) db fresh p = elim (Option-cases e.random) [
      | inl failed ↦ rw failed p
      | inr (raw, drawn) ↦
          let other : bad raw ≡ false = rw drawn at fresh in
          rw drawn (ground (arith, insert_keeps e raw input db.codes other))
    ]
    step_keeps (consume_code e raw client uri) db fresh p =
        ground (arith, use_keeps (is_consumable e.now (hash_token raw) client uri) e.now db.codes p)
    step_keeps (create_pending e input) db fresh p =
        unfold create_pending_authorization in ground arith
    step_keeps (consume_pending e id tenant user) db fresh p =
        unfold consume_pending_authorization in ground arith
    step_keeps (grant_consent e tenant client user scope) db fresh p =
        rw (record_consent-codes e tenant client user scope db) p
    step_keeps (create_refresh e input) db fresh p = unfold create_refresh_token in ground arith
    step_keeps (consume_refresh e raw client) db fresh p =
        rw (consume_refresh-codes e raw client db) p
    step_keeps (revoke_refresh e raw client) db fresh p =
        unfold revoke_refresh_token in ground arith
    step_keeps (register_client e secret input) db fresh p = unfold create_client in ground arith
    step_keeps (remove_client e tenant id) db fresh p = unfold revoke_client in ground arith
    step_keeps (clean_up codes tokens pendings now batch) db fresh p =
        rw (clean_up-codes codes tokens pendings now batch db) (
          sweep_keeps codes (at_least_one batch) (expired_code (now - cleanup_grace_period_seconds))
            db.codes p)

    run_keeps :
        (ops : List Op) (db : Db)
        → any (draws_code bad) ops ≡ false
        → P db.codes
        → P (run hash_token ops db).codes
    unfolding run
    run_keeps [] db fresh p = p
    run_keeps (op ∷ ops) db fresh p =
        run_keeps ops (step hash_token op db) (ground arith) (step_keeps op db (ground arith) p)

  -- Every code of the hash has been used.
  abbrev Spent : String → List CodeRow → Type 0
  Spent h codes = all (or_other code_hash_of h is_used) codes ≡ true

  run-Spent :
      (h : String) (ops : List Op) (db : Db)
      → any (draws_code (λ raw. hash_token raw == h)) ops ≡ false
      → Spent h db.codes
      → Spent h (run hash_token ops db).codes
  unfolding sweep_all
  run-Spent h =
      run_keeps (Spent h) (λ raw. hash_token raw == h)
        (λ e raw input codes other fresh p.
          all-append_one (or_other code_hash_of h is_used) (code_row e (hash_token raw) input) codes
            p (ground arith))
        (λ q now codes p.
          all-update_where (or_other code_hash_of h is_used) q (mark_used now) codes
            (λ x used. ground arith) p)
        (λ up batch q codes p.
          all-delete_in_batches (or_other code_hash_of h is_used) (suc (length codes)) up
            unreferenced batch q 0 0 codes codes p p)

  run-IsUnique :
      (ops : List Op) (db : Db)
      → IsUnique code_hash_of db.codes
      → IsUnique code_hash_of (run hash_token ops db).codes
  unfolding sweep_all
  run-IsUnique ops db =
      run_keeps (IsUnique code_hash_of) (λ _. false)
        (λ e raw input codes other fresh u.
          append_one-IsUnique code_hash_of (code_row e (hash_token raw) input) codes (ground arith)
            u)
        (λ q now codes u. update_where-IsUnique code_hash_of q (mark_used now) (λ x. refl) codes u)
        (λ up batch q codes u.
          delete_in_batches-IsUnique code_hash_of (suc (length codes)) up unreferenced batch q 0 0
            codes codes u u)
        ops db (draws_nothing ops)

  -- A consumption that returns a code has used every row of its hash.
  consume-Spent :
      (e : Env) (raw client uri : String) (db : Db) {code : AuthorizationCode}
      → IsUnique code_hash_of db.codes
      → (consume_authorization_code hash_token e raw client uri db).0 ≡ ok (some code)
      → Spent (hash_token raw) (consume_authorization_code hash_token e raw client uri db).1.codes
  unfolding consume_authorization_code
  consume-Spent e raw client uri db u h =
      let here = is_consumable e.now (hash_token raw) client uri in
      elim (Option-cases (find here db.codes)) [
        | inl absent ↦ absurd (ground (arith, absent))
        | inr (r, found) ↦
            let spent =
              spend_found code_hash_of (hash_token raw) is_used here here (mark_used e.now) r
                db.codes (λ x p. (eq_iff x.code_hash (hash_token raw)).0 (ground arith)) (λ x. refl)
                (λ x. refl) u found (found_passes here r db.codes found) in
            ground (arith, spent)
      ]

  -- No code of a spent hash is consumed.
  consume-Spent' :
      (e : Env) (raw client uri : String) (db : Db) (code : AuthorizationCode)
      → Spent (hash_token raw) db.codes
      → (consume_authorization_code hash_token e raw client uri db).0 ≢ ok (some code)
  unfolding consume_authorization_code
  consume-Spent' e raw client uri db code spent =
      let none_left =
        find-spent code_hash_of (hash_token raw) is_used
          (is_consumable e.now (hash_token raw) client uri) db.codes
          (λ x p. ((eq_iff x.code_hash (hash_token raw)).0 (ground arith), ground arith)) spent in
      λ h. ground (arith, none_left)

  -- A code is redeemed at most once: after a consumption that returned a code, in whatever history of
  -- the server before it, no later consumption of the same raw code returns one, for no client and no
  -- redirect URI, whatever the server does in between, as long as the raw code's hash is not drawn
  -- again.
  pub consume_code_once :
      (before after : List Op) (first second : Env) (raw client uri client' uri' : String)
      (code code' : AuthorizationCode)
      → any (draws_code (λ r. hash_token r == hash_token raw)) after ≡ false
      → (consume_authorization_code hash_token first raw client uri
          (run hash_token before empty_db)).0
        ≡ ok (some code)
      → (consume_authorization_code hash_token second raw client' uri' (
          run hash_token after
            (consume_authorization_code hash_token first raw client uri
              (run hash_token before empty_db)).1)).0
        ≢ ok (some code')
  consume_code_once before after first second raw client uri client' uri' code code' fresh
        redeemed =
      let unique = run-IsUnique before empty_db tt in
      let spent =
        consume-Spent first raw client uri (run hash_token before empty_db) unique redeemed in
      consume-Spent' second raw client' uri' _ code'
        (run-Spent (hash_token raw) after _ fresh spent)
