-- ===== src/Oauth/History/Rotation.antt =====
-- Rotation and reuse of the refresh tokens of go/oauthserver/refresh.go.
use text.Mathlib.TextPositions.{eq_refl}
use metap.Prelude.{
  true, false, some, List, [], ◌∷◌, ◌++◌, String, ◌≡◌, ◌≢◌, refl, ◌==◌, any, eq_iff, arith,
  if◌then◌else◌, Option-cases, inl, inr,
}
use metap.Oauth.Db.{ok, Env, RefreshRow, Db, find, update_where}
use metap.Oauth.Refresh.{
  RefreshToken, rotated, reused, refresh_row, has_token, is_presented, in_chain, revoke, replace,
  consume_refresh_token, consume_row,
}
use metap.Oauth.History.{Op, run}
use metap.Oauth.History.Codes.{empty_db}
use metap.Oauth.History.Refreshes.{
  is_revoked, token_hash_of, Dead, draws_token, run-Dead, run-IsUnique,
}
use metap.Oauth.History.Rows.{IsUnique, append_one-IsUnique, update_where-IsUnique}
use metap.Oauth.History.Tables.{
  spend_found, found_passes, find-append, found_satisfies, or_other, find-update_where, all_found,
}

-- The row that a rotation stores.
abbrev successor : (String → String) → Env → String → String → RefreshRow → RefreshRow
successor hash_token e raw client r =
    refresh_row e (hash_token raw)
      (record { client_id = client; tenant_id = r.tenant_id; user_id = r.user_id; scope = r.scope })

module _ (hash_token : String → String) where
  -- What a rotation has written.
  consume_row-rotated :
      (e : Env) (client : String) (r : RefreshRow) (db : Db) {new : RefreshToken} {raw : String}
      → (consume_row hash_token e client r db).0 ≡ ok (rotated new raw)
      → (has_token e.id (hash_token raw) db.refreshes ≡ false)
        × ((consume_row hash_token e client r db).1.refreshes
            ≡ update_where
                (λ x. x.id == r.id)
                (replace e.now e.id)
                (db.refreshes ++ successor hash_token e raw client r ∷ []))
  unfolding consume_row
  consume_row-rotated e client r db h = elim (Option-cases e.random) [
    | inl failed ↦ absurd (ground (arith, failed))
    | inr (raw, drawn) ↦ (ground (arith, drawn), ground (arith, drawn))
  ]

  consume-Dead :
      (e : Env) (raw client : String) (db : Db) {new : RefreshToken} {raw' : String}
      → IsUnique token_hash_of db.refreshes
      → (consume_refresh_token hash_token e raw client db).0 ≡ ok (rotated new raw')
      → Dead hash_token
          (hash_token raw)
          (consume_refresh_token hash_token e raw client db).1.refreshes
  unfolding consume_refresh_token
  consume-Dead e raw client db {new} {raw'} u h =
      let here = is_presented (hash_token raw) client in
      elim (Option-cases (find here db.refreshes)) [
        | inl absent ↦ absurd (ground (arith, absent))
        | inr (r, found) ↦
            let up : e.reads ≡ true = ground arith in
            let row : (consume_row hash_token e client r db).0 ≡ ok (rotated new raw') =
              ground (arith, found) in
            let written = consume_row-rotated e client r db row in
            let next = successor hash_token e raw' client r in
            let dead =
              spend_found token_hash_of (hash_token raw) is_revoked here (λ x. x.id == r.id)
                (replace e.now e.id) r (db.refreshes ++ next ∷ [])
                (λ x p. (eq_iff x.token_hash (hash_token raw)).0 (ground arith)) (λ x. refl)
                (λ x. refl) (append_one-IsUnique token_hash_of next db.refreshes (ground arith) u)
                (find-append here r db.refreshes (next ∷ []) found) (eq_refl r.id) in
            rw (up, found) (rw (written.1) dead)
      ]

  -- A dead token is not rotated.
  consume-Dead' :
      (e : Env) (raw client : String) (db : Db) (new : RefreshToken) (raw' : String)
      → Dead hash_token (hash_token raw) db.refreshes
      → (consume_refresh_token hash_token e raw client db).0 ≢ ok (rotated new raw')
  unfolding consume_refresh_token consume_row
  consume-Dead' e raw client db new raw' dead h =
      let here = is_presented (hash_token raw) client in
      elim (Option-cases (find here db.refreshes)) [
        | inl absent ↦ ground (arith, absent)
        | inr (r, found) ↦
            let presented = found_passes here r db.refreshes found in
            let spent =
              found_satisfies here (or_other token_hash_of (hash_token raw) is_revoked) r
                db.refreshes dead found in
            let revoked : is_revoked r ≡ true = ground (arith, presented, spent) in
            ground (arith, found, revoked)
      ]

  -- A refresh token is rotated at most once: after a rotation, in whatever history of the server, no
  -- later presentation of the same raw token rotates it, by no client, whatever the server does in
  -- between, as long as the token's hash is not drawn again.
  pub rotate_once :
      (before after : List Op) (first second : Env) (raw client client' : String)
      (new new' : RefreshToken) (raw_new raw_new' : String)
      → any (draws_token (λ r. hash_token r == hash_token raw)) after ≡ false
      → (consume_refresh_token hash_token first raw client (run hash_token before empty_db)).0
        ≡ ok (rotated new raw_new)
      → (consume_refresh_token hash_token second raw client' (
          run hash_token after
            (consume_refresh_token hash_token first raw client
              (run hash_token before empty_db)).1)).0
        ≢ ok (rotated new' raw_new')
  rotate_once before after first second raw client client' new new' raw_new raw_new' fresh turned =
      let unique = run-IsUnique hash_token before empty_db tt in
      let dead = consume-Dead first raw client (run hash_token before empty_db) unique turned in
      consume-Dead' second raw client' _ new' raw_new'
        (run-Dead hash_token (hash_token raw) after _ fresh dead)

  -- What a reuse has written, and the row that was presented.
  consume-reused :
      (e : Env) (raw client : String) (db : Db)
      → (consume_refresh_token hash_token e raw client db).0 ≡ ok reused
      → (r : RefreshRow) × (find (is_presented (hash_token raw) client) db.refreshes ≡ some r)
        × ((consume_refresh_token hash_token e raw client db).1.refreshes
            ≡ update_where (in_chain client r.user_id) (revoke e.now) db.refreshes)
  unfolding consume_refresh_token consume_row
  consume-reused e raw client db h =
      elim (Option-cases (find (is_presented (hash_token raw) client) db.refreshes)) [
        | inl absent ↦ absurd (ground (arith, absent))
        | inr (r, found) ↦ elim (Option-cases e.random) [
          | inl failed ↦ (r, found, ground (arith, found, failed))
          | inr (raw', drawn) ↦ (r, found, ground (arith, found, drawn))
        ]
      ]

  chain-Dead :
      (e : Env) (raw kept client : String) (db : Db) (r s : RefreshRow)
      → IsUnique token_hash_of db.refreshes
      → (consume_refresh_token hash_token e raw client db).0 ≡ ok reused
      → find (is_presented (hash_token raw) client) db.refreshes ≡ some r
      → find (is_presented (hash_token kept) client) db.refreshes ≡ some s
      → s.user_id ≡ r.user_id
      → Dead hash_token
          (hash_token kept)
          (consume_refresh_token hash_token e raw client db).1.refreshes
  chain-Dead e raw kept client db r s u again presented held same =
      let here = is_presented (hash_token kept) client in
      let (r', found, written) = consume-reused e raw client db again in
      let one : r' ≡ r = cc in
      let chain = in_chain client r.user_id in
      let owned = found_passes here s db.refreshes held in
      let moved = find-update_where here chain (revoke e.now) (λ x. refl) s db.refreshes held in
      rw (written, one)
        (all_found token_hash_of (hash_token kept) is_revoked here
          (if chain s then revoke e.now s else s) (update_where chain (revoke e.now) db.refreshes)
          (λ x p. (eq_iff x.token_hash (hash_token kept)).0 (ground arith))
          (update_where-IsUnique token_hash_of chain (revoke e.now) (λ x. refl) db.refreshes u)
          moved (ground (arith, owned, same, eq_refl r.user_id)))

  -- A reuse cuts off the chain: once the presentation of a token has been answered as a reuse, no
  -- token that the same client held for the same user at that time is ever rotated again, whatever
  -- the server does later, as long as that token's hash is not drawn again.
  pub reuse_cuts_chain :
      (before after : List Op) (first second : Env) (raw kept client client' : String)
      (r s : RefreshRow) (new : RefreshToken) (raw_new : String)
      → (consume_refresh_token hash_token first raw client (run hash_token before empty_db)).0
        ≡ ok reused
      → find (is_presented (hash_token raw) client) (run hash_token before empty_db).refreshes
        ≡ some r
      → find (is_presented (hash_token kept) client) (run hash_token before empty_db).refreshes
        ≡ some s
      → s.user_id ≡ r.user_id
      → any (draws_token (λ x. hash_token x == hash_token kept)) after ≡ false
      → (consume_refresh_token hash_token second kept client' (
          run hash_token after
            (consume_refresh_token hash_token first raw client
              (run hash_token before empty_db)).1)).0
        ≢ ok (rotated new raw_new)
  reuse_cuts_chain before after first second raw kept client client' r s new raw_new again presented
        held same fresh =
      consume-Dead' second kept client' _ new raw_new (
        run-Dead hash_token (hash_token kept) after _ fresh (
          chain-Dead first raw kept client (run hash_token before empty_db) r s
            (run-IsUnique hash_token before empty_db tt) again presented held same))
