-- ===== src/Oauth/History/Refreshes.antt =====
-- The refresh tokens of go/oauthserver/refresh.go over the histories of a server: their hashes, and the
-- rows of a token that can no longer be rotated.
use metap.Prelude.{
  ℕ, suc, ◌-◌, Bool, true, false, not, Option, none, some, List, [], ◌∷◌, ◌++◌, String, ◌≡◌, ◌⊎◌,
  refl, ◌==◌, ◌&&◌, any, all, length, arith, Option-cases, inl, inr,
}
use metap.Oauth.Db.{Env, RefreshRow, Db, is_none, find, update_where}
use metap.Oauth.Codes.{create_authorization_code, consume_authorization_code}
use metap.Oauth.Consents.{
  create_pending_authorization, consume_pending_authorization, record_consent,
}
use metap.Oauth.Refresh.{
  CreateRefreshInput, refresh_row, has_token, is_presented, in_chain, revoke, replace,
  create_refresh_token, consume_refresh_token, consume_row, revoke_refresh_token,
}
use metap.Oauth.Clients.{create_client, revoke_client}
use metap.Oauth.Cleanup.{
  successors_stored, delete_expired_in_batches, sweep_all, left_over, at_least_one, expired_refresh,
  cleanup_grace_period_seconds,
}
use metap.Oauth.History.{
  Op, create_code, consume_code, create_pending, consume_pending, grant_consent, create_refresh,
  consume_refresh, revoke_refresh, register_client, remove_client, clean_up, step, run,
}
use metap.Oauth.History.Rows.{
  IsUnique, all-append_one, all-update_where, append_one-IsUnique, update_where-IsUnique,
  all-delete_in_batches, delete_in_batches-IsUnique,
}
use metap.Oauth.History.Tables.{or_other}

abbrev pub token_hash_of : RefreshRow → String
token_hash_of r = r.token_hash

abbrev pub is_revoked : RefreshRow → Bool
is_revoked r = not (is_none r.revoked_at)

abbrev drawn_by : (String → Bool) → Option String → Bool
drawn_by bad none = false
drawn_by bad (some raw) = bad raw

-- The operation may issue a refresh token whose raw text passes the test.
abbrev pub draws_token : (String → Bool) → Op → Bool
draws_token bad (create_refresh e input) = drawn_by bad e.random
draws_token bad (consume_refresh e raw client) = drawn_by bad e.random
draws_token bad _ = false

draws_nothing : (ops : List Op) → any (draws_token (λ _. false)) ops ≡ false
draws_nothing [] = refl
draws_nothing (op ∷ ops) = ground (arith, draws_none op, draws_nothing ops)
  where
    no_draw : (o : Option String) → drawn_by (λ _. false) o ≡ false
    no_draw none = refl
    no_draw (some raw) = refl

    draws_none : (op : Op) → draws_token (λ _. false) op ≡ false
    draws_none (create_refresh e input) = no_draw e.random
    draws_none (consume_refresh e raw client) = no_draw e.random
    draws_none op = refl

module _ (hash_token : String → String) where
  record_consent-refreshes :
      (e : Env) (tenant client user scope : String) (db : Db)
      → (record_consent e tenant client user scope db).1.refreshes ≡ db.refreshes
  unfolding record_consent
  record_consent-refreshes e tenant client user scope db = ground arith

  clean_up-refreshes :
      (codes tokens pendings : ℕ → Bool) (now batch : ℕ) (db : Db)
      → ((delete_expired_in_batches codes tokens pendings now batch db).1.refreshes ≡ db.refreshes)
        ⊎ ((delete_expired_in_batches codes tokens pendings now batch db).1.refreshes
            ≡ left_over db.refreshes (
                sweep_all tokens successors_stored
                  (at_least_one batch)
                  (expired_refresh (now - cleanup_grace_period_seconds))
                  db.refreshes))
  unfolding delete_expired_in_batches
  clean_up-refreshes codes tokens pendings now batch db = ground arith

  -- Any property of the table that the writes of tokens keep is kept by every operation.
  module _ (P : List RefreshRow → Type 0) (bad : String → Bool)
      (insert_keeps : (e : Env) (raw : String) (input : CreateRefreshInput) (rows : List RefreshRow)
        → bad raw ≡ false
        → has_token e.id (hash_token raw) rows ≡ false
        → P rows
        → P (rows ++ refresh_row e (hash_token raw) input ∷ []))
      (revoke_keeps : (q : RefreshRow → Bool) (now : ℕ) (rows : List RefreshRow)
        → P rows
        → P (update_where q (revoke now) rows))
      (replace_keeps : (q : RefreshRow → Bool) (now : ℕ) (id : String) (rows : List RefreshRow)
        → P rows
        → P (update_where q (replace now id) rows))
      (sweep_keeps : (up : ℕ → Bool) (batch : ℕ) (q : RefreshRow → Bool) (rows : List RefreshRow)
        → P rows
        → P (left_over rows (sweep_all up successors_stored batch q rows))) where
    create_keeps :
        (e : Env) (input : CreateRefreshInput) (db : Db)
        → drawn_by bad e.random ≡ false
        → P db.refreshes
        → P (create_refresh_token hash_token e input db).1.refreshes
    unfolding create_refresh_token
    create_keeps e input db fresh p = elim (Option-cases e.random) [
      | inl failed ↦ rw failed p
      | inr (raw, drawn) ↦
          let other : bad raw ≡ false = rw drawn at fresh in
          rw drawn (ground (arith, insert_keeps e raw input db.refreshes other))
    ]

    consume_row_keeps :
        (e : Env) (client : String) (r : RefreshRow) (db : Db)
        → drawn_by bad e.random ≡ false
        → P db.refreshes
        → P (consume_row hash_token e client r db).1.refreshes
    unfolding consume_row
    consume_row_keeps e client r db fresh p = elim (Option-cases e.random) [
      | inl failed ↦
          rw failed (ground (arith, revoke_keeps (in_chain client r.user_id) e.now db.refreshes p))
      | inr (raw, drawn) ↦
          let other : bad raw ≡ false = rw drawn at fresh in
          let next = refresh_row e (hash_token raw) (record {
            client_id = client;
            tenant_id = r.tenant_id;
            user_id = r.user_id;
            scope = r.scope;
          }) in
          rw drawn (
            ground (
              arith,
              revoke_keeps (in_chain client r.user_id) e.now db.refreshes p,
              insert_keeps e raw
                  (record {
                    client_id = client;
                    tenant_id = r.tenant_id;
                    user_id = r.user_id;
                    scope = r.scope;
                  })
                  db.refreshes other,
              replace_keeps (λ (x : RefreshRow). x.id == r.id) e.now e.id
                  (db.refreshes ++ next ∷ []),
            ))
    ]

    consume_keeps :
        (e : Env) (raw client : String) (db : Db)
        → drawn_by bad e.random ≡ false
        → P db.refreshes
        → P (consume_refresh_token hash_token e raw client db).1.refreshes
    unfolding consume_refresh_token
    consume_keeps e raw client db fresh p =
        elim (Option-cases (find (is_presented (hash_token raw) client) db.refreshes)) [
          | inl absent ↦ ground (arith, absent)
          | inr (r, found) ↦ ground (arith, found, consume_row_keeps e client r db fresh p)
        ]

    step_keeps :
        (op : Op) (db : Db)
        → draws_token bad op ≡ false
        → P db.refreshes
        → P (step hash_token op db).refreshes
    unfolding step
    step_keeps (create_code e input) db fresh p = unfold create_authorization_code in ground arith
    step_keeps (consume_code e raw client uri) db fresh p =
        unfold consume_authorization_code in ground arith
    step_keeps (create_pending e input) db fresh p =
        unfold create_pending_authorization in ground arith
    step_keeps (consume_pending e id tenant user) db fresh p =
        unfold consume_pending_authorization in ground arith
    step_keeps (grant_consent e tenant client user scope) db fresh p =
        rw (record_consent-refreshes e tenant client user scope db) p
    step_keeps (create_refresh e input) db fresh p = create_keeps e input db fresh p
    step_keeps (consume_refresh e raw client) db fresh p = consume_keeps e raw client db fresh p
    step_keeps (revoke_refresh e raw client) db fresh p =
        unfold revoke_refresh_token in
        ground (
          arith,
          revoke_keeps
              (λ (r : RefreshRow). is_presented (hash_token raw) client r && is_none r.revoked_at)
              e.now db.refreshes p,
        )
    step_keeps (register_client e secret input) db fresh p = unfold create_client in ground arith
    step_keeps (remove_client e tenant id) db fresh p = unfold revoke_client in ground arith
    step_keeps (clean_up codes tokens pendings now batch) db fresh p =
        elim (clean_up-refreshes codes tokens pendings now batch db) [
          | inl same ↦ rw same p
          | inr swept ↦ rw swept (
              sweep_keeps tokens (at_least_one batch)
                (expired_refresh (now - cleanup_grace_period_seconds)) db.refreshes p)
        ]

    run_keeps :
        (ops : List Op) (db : Db)
        → any (draws_token bad) ops ≡ false
        → P db.refreshes
        → P (run hash_token ops db).refreshes
    unfolding run
    run_keeps [] db fresh p = p
    run_keeps (op ∷ ops) db fresh p =
        run_keeps ops (step hash_token op db) (ground arith) (step_keeps op db (ground arith) p)

  -- Every token of the hash is revoked.
  abbrev pub Dead : String → List RefreshRow → Type 0
  Dead h rows = all (or_other token_hash_of h is_revoked) rows ≡ true

  pub run-Dead :
      (h : String) (ops : List Op) (db : Db)
      → any (draws_token (λ raw. hash_token raw == h)) ops ≡ false
      → Dead h db.refreshes
      → Dead h (run hash_token ops db).refreshes
  unfolding sweep_all
  run-Dead h =
      run_keeps (Dead h) (λ raw. hash_token raw == h)
        (λ e raw input rows other fresh p.
          all-append_one (or_other token_hash_of h is_revoked)
            (refresh_row e (hash_token raw) input) rows p (ground arith))
        (λ q now rows p.
          all-update_where (or_other token_hash_of h is_revoked) q (revoke now) rows
            (λ x dead. ground arith) p)
        (λ q now id rows p.
          all-update_where (or_other token_hash_of h is_revoked) q (replace now id) rows
            (λ x dead. ground arith) p)
        (λ up batch q rows p.
          all-delete_in_batches (or_other token_hash_of h is_revoked) (suc (length rows)) up
            successors_stored batch q 0 0 rows rows p p)

  pub run-IsUnique :
      (ops : List Op) (db : Db)
      → IsUnique token_hash_of db.refreshes
      → IsUnique token_hash_of (run hash_token ops db).refreshes
  unfolding sweep_all
  run-IsUnique ops db =
      run_keeps (IsUnique token_hash_of) (λ _. false)
        (λ e raw input rows other fresh u.
          append_one-IsUnique token_hash_of (refresh_row e (hash_token raw) input) rows
            (ground arith) u)
        (λ q now rows u. update_where-IsUnique token_hash_of q (revoke now) (λ x. refl) rows u)
        (λ q now id rows u.
          update_where-IsUnique token_hash_of q (replace now id) (λ x. refl) rows u)
        (λ up batch q rows u.
          delete_in_batches-IsUnique token_hash_of (suc (length rows)) up successors_stored batch q
            0 0 rows rows u u)
        ops db (draws_nothing ops)
