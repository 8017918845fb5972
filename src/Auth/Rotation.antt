-- ===== src/Auth/Rotation.antt =====
-- Refresh tokens are used once, and a second use ends the session.
use flash_core.Common.{
  ℕ, ◌<◌, ◌≡◌, ◌⊎◌, inl, inr, Bool-cases, Option-cases, refl, ap, true, Option, none, some, [], ◌∷◌,
  ◌++◌, ◌||◌, leb, is_some, arith, ==_refl,
}
use flash_core.Common.Table.{
  find, exists-find, update_where, count_where, find-update_where, find-append,
  count-update_where_off,
}
use flash_core.Store.{ok, err, Error, ◌>>=◌}
use flash_core.Auth.Rows.{User, RefreshToken, Accounts, Crypto, Limits, Draw}
use flash_core.Auth.Repository.{has_hash, has_token_id, has_user_id, is_live_in, revoke_row}
use flash_core.Auth.Service.{
  AuthResult, token_row, signed_in, check_stored, check_refresh, finish_refresh, refresh,
  logout_stored, logout,
}

module _ (crypto : Crypto) (limits : Limits) where
  abbrev pub rotated : Draw → RefreshToken → User → Accounts → Accounts
  rotated draw t u s = record s {
    tokens =
        update_where (has_token_id t.id) (revoke_row draw.now) s.tokens
        ++ (token_row crypto limits draw u.id t.family_id ∷ []);
  }

  pub check_refresh_lem :
      (draw : Draw) (raw : ℕ) (s : Accounts) (t : RefreshToken) (u : User)
      → find (has_hash (crypto.hash_token raw)) s.tokens ≡ some t
      → t.revoked_at ≡ none
      → draw.now < t.expires_at
      → find (has_user_id t.user_id) s.users ≡ some u
      → check_refresh crypto limits draw raw s ≡ (ok (t, u), s)
  unfolding check_refresh
  check_refresh_lem draw raw s t u found live fresh owner = ground arith

  pub finish_refresh_lem :
      (draw : Draw) (s : Accounts) (t : RefreshToken) (u : User)
      → is_some (find (has_token_id t.id) s.tokens) ≡ true
      → find
          (λ x.
            has_token_id draw.row_id x
            || has_hash (token_row crypto limits draw u.id t.family_id).token_hash x)
          s.tokens
        ≡ none
      → finish_refresh crypto limits draw (t, u) s
        ≡ (ok (signed_in crypto limits draw u t.family_id), rotated draw t u s)
  unfolding finish_refresh
  finish_refresh_lem draw s t u there unused = ground (
    arith,
    find-update_where (has_token_id t.id)
        (λ x.
          has_token_id draw.row_id x
          || has_hash (token_row crypto limits draw u.id t.family_id).token_hash x)
        (revoke_row draw.now) (λ x. refl) s.tokens,
  )

  -- A refresh with a token that is neither revoked nor expired, whose user exists, and with a new id
  -- and token hash that no row has, revokes that token, issues one of the same family, and changes
  -- nothing else.
  pub refresh_rotates :
      (draw : Draw) (raw : ℕ) (s : Accounts) (t : RefreshToken) (u : User)
      → find (has_hash (crypto.hash_token raw)) s.tokens ≡ some t
      → t.revoked_at ≡ none
      → draw.now < t.expires_at
      → find (has_user_id t.user_id) s.users ≡ some u
      → find
          (λ x.
            has_token_id draw.row_id x
            || has_hash (token_row crypto limits draw u.id t.family_id).token_hash x)
          s.tokens
        ≡ none
      → refresh crypto limits draw raw s
        ≡ (ok (signed_in crypto limits draw u t.family_id), rotated draw t u s)
  unfolding refresh
  refresh_rotates draw raw s t u found live fresh owner unused = ground (
    arith,
    check_refresh_lem draw raw s t u found live fresh owner,
    finish_refresh_lem draw s t u
        (exists-find (has_hash (crypto.hash_token raw)) (has_token_id t.id) s.tokens t found
          (==_refl t.id))
        unused,
  )

  -- A refresh with a revoked token is refused, and leaves no live token in that token's family.
  pub refresh_reused :
      (draw : Draw) (raw : ℕ) (s : Accounts) (t : RefreshToken) (r : ℕ)
      → find (has_hash (crypto.hash_token raw)) s.tokens ≡ some t
      → t.revoked_at ≡ some r
      → let after = (refresh crypto limits draw raw s).1 in
        ((refresh crypto limits draw raw s).0 ≡ err Error.invalid_refresh_token)
        × (count_where (is_live_in t.family_id) after.tokens ≡ 0)
  unfolding refresh check_refresh
  refresh_reused draw raw s t r found revoked = ground (
    arith,
    count-update_where_off (is_live_in t.family_id) (revoke_row draw.now) s.tokens
        (λ x. ground arith),
  )

  -- The token is accepted with its owner, or the call throws.
  check_stored-cases :
      (draw : Draw) (t : RefreshToken) (s : Accounts)
      → ((u : User) × (check_stored crypto limits draw (some t) s ≡ (ok (t, u), s)))
        ⊎ ((e : Error) × ((check_stored crypto limits draw (some t) s).0 ≡ err e))
  unfolding check_stored
  check_stored-cases draw t s = elim (Bool-cases (is_some t.revoked_at)) [
    | inl revoked ↦ inr (Error.invalid_refresh_token, ground arith)
    | inr live ↦ elim (Bool-cases (leb t.expires_at draw.now)) [
      | inl old ↦ inr (Error.invalid_refresh_token, ground arith)
      | inr fresh ↦ elim (Option-cases (find (has_user_id t.user_id) s.users)) [
        | inl gone ↦ inr (Error.invalid_refresh_token, ground arith)
        | inr (u, owner) ↦ inl (u, ground arith)
      ]
    ]
  ]

  finish_refresh_ok :
      (draw : Draw) (s : Accounts) (t : RefreshToken) (u : User) (a : AuthResult)
      → (finish_refresh crypto limits draw (t, u) s).0 ≡ ok a
      → (finish_refresh crypto limits draw (t, u) s).1 ≡ rotated draw t u s
  unfolding finish_refresh
  finish_refresh_ok draw s t u a done = ground arith

  refresh_found :
      (draw : Draw) (raw : ℕ) (s : Accounts) (t : RefreshToken)
      → find (has_hash (crypto.hash_token raw)) s.tokens ≡ some t
      → refresh crypto limits draw raw s
        ≡ ◌>>=◌ (check_stored crypto limits draw (some t)) (finish_refresh crypto limits draw) s
  unfolding refresh check_refresh
  refresh_found draw raw s t found =
      ap (λ o. ◌>>=◌ (check_stored crypto limits draw o) (finish_refresh crypto limits draw) s)
        found

  refresh_ok :
      (draw : Draw) (raw : ℕ) (s : Accounts) (t : RefreshToken) (a : AuthResult)
      → find (has_hash (crypto.hash_token raw)) s.tokens ≡ some t
      → (refresh crypto limits draw raw s).0 ≡ ok a
      → (u : User) × ((refresh crypto limits draw raw s).1 ≡ rotated draw t u s)
  refresh_ok draw raw s t a found done = elim (check_stored-cases draw t s) [
    | inl (u, accepted) ↦ (
      u,
      ground (arith, accepted, refresh_found draw raw s t found, finish_refresh_ok draw s t u a),
    )
    | inr (e, refused) ↦ absurd (ground (arith, refused, refresh_found draw raw s t found))
  ]

  find-rotated :
      (draw : Draw) (raw : ℕ) (s : Accounts) (t : RefreshToken) (u : User)
      → find (has_hash (crypto.hash_token raw)) s.tokens ≡ some t
      → find (has_hash (crypto.hash_token raw)) (rotated draw t u s).tokens
        ≡ some (revoke_row draw.now t)
  find-rotated draw raw s t u found = ground (
    arith,
    find-update_where (has_token_id t.id) (has_hash (crypto.hash_token raw)) (revoke_row draw.now)
        (λ x. refl) s.tokens,
    find-append (has_hash (crypto.hash_token raw))
        (update_where (has_token_id t.id) (revoke_row draw.now) s.tokens)
        (token_row crypto limits draw u.id t.family_id ∷ []),
    ==_refl t.id,
  )

  pub refresh_ok_revokes :
      (draw : Draw) (raw : ℕ) (s : Accounts) (t : RefreshToken) (a : AuthResult)
      → find (has_hash (crypto.hash_token raw)) s.tokens ≡ some t
      → (refresh crypto limits draw raw s).0 ≡ ok a
      → find (has_hash (crypto.hash_token raw)) (refresh crypto limits draw raw s).1.tokens
        ≡ some (revoke_row draw.now t)
  refresh_ok_revokes draw raw s t a found done =
      let (u, after) = refresh_ok draw raw s t a found done in
      rw after (find-rotated draw raw s t u found)

  refresh_missing :
      (draw : Draw) (raw : ℕ) (s : Accounts)
      → find (has_hash (crypto.hash_token raw)) s.tokens ≡ none
      → (refresh crypto limits draw raw s).0 ≡ err Error.invalid_refresh_token
  unfolding refresh check_refresh
  refresh_missing draw raw s missing = ground arith

  abbrev revoked : Draw → RefreshToken → Accounts → Accounts
  revoked draw t s = record s {
    tokens = update_where (has_token_id t.id) (revoke_row draw.now) s.tokens;
  }

  logout_stored_live :
      (draw : Draw) (raw : ℕ) (s : Accounts) (t : RefreshToken)
      → find (has_hash (crypto.hash_token raw)) s.tokens ≡ some t
      → t.revoked_at ≡ none
      → logout_stored crypto limits draw (some t) s ≡ (ok tt, revoked draw t s)
  unfolding logout_stored
  logout_stored_live draw raw s t found live = ground (
    arith,
    exists-find (has_hash (crypto.hash_token raw)) (has_token_id t.id) s.tokens t found
        (==_refl t.id),
  )

  logout_stored_revoked :
      (draw : Draw) (s : Accounts) (t : RefreshToken) (r : ℕ)
      → t.revoked_at ≡ some r
      → logout_stored crypto limits draw (some t) s ≡ (ok tt, s)
  unfolding logout_stored
  logout_stored_revoked draw s t r old = ground arith

  find-revoked :
      (draw : Draw) (raw : ℕ) (s : Accounts) (t : RefreshToken)
      → find (has_hash (crypto.hash_token raw)) s.tokens ≡ some t
      → find (has_hash (crypto.hash_token raw)) (revoked draw t s).tokens
        ≡ some (revoke_row draw.now t)
  find-revoked draw raw s t found = ground (
    arith,
    find-update_where (has_token_id t.id) (has_hash (crypto.hash_token raw)) (revoke_row draw.now)
        (λ x. refl) s.tokens,
    ==_refl t.id,
  )

  refresh-logout_stored :
      (draw later : Draw) (raw : ℕ) (s : Accounts) (stored : Option RefreshToken)
      → find (has_hash (crypto.hash_token raw)) s.tokens ≡ stored
      → (refresh crypto limits later raw (logout_stored crypto limits draw stored s).1).0
        ≡ err Error.invalid_refresh_token
  refresh-logout_stored draw later raw s none missing =
      unfold logout_stored in refresh_missing later raw s missing
  refresh-logout_stored draw later raw s (some t) found = elim (Option-cases t.revoked_at) [
    | inl live ↦
        rw (logout_stored_live draw raw s t found live)
          (refresh_reused later raw (revoked draw t s) (revoke_row draw.now t) draw.now
            (find-revoked draw raw s t found) refl).0
    | inr (r, old) ↦
        rw (logout_stored_revoked draw s t r old) (refresh_reused later raw s t r found old).0
  ]

  -- After a logout with a token, whatever the state was, a refresh with it is refused.
  pub refresh-logout :
      (draw later : Draw) (raw : ℕ) (s : Accounts)
      → (refresh crypto limits later raw (logout crypto limits draw (some raw) s).1).0
        ≡ err Error.invalid_refresh_token
  unfolding logout
  refresh-logout draw later raw s =
      refresh-logout_stored draw later raw s (find (has_hash (crypto.hash_token raw)) s.tokens) refl
