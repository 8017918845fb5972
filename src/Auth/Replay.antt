-- ===== src/Auth/Replay.antt =====
-- A refresh token that has been used, whatever requests come after it, one after the other.
use mathlib.Core.Path.{subst}
use flash_core.Common.{
  ℕ, ◌≡◌, refl, Bool, true, false, Option, none, some, List, [], ◌∷◌, ◌++◌, ◌==◌, ◌&&◌, is_some,
  arith, ==_refl, Option-cases, inl, inr,
}
use flash_core.Common.Table.{find, update_where, count_where, find-update_where, find-append}
use flash_core.Store.{Result, err, ok, Error, ◌>>=◌}
use flash_core.Auth.Rows.{User, RefreshToken, Accounts, Crypto, Limits, Draw}
use flash_core.Auth.Counters.{assert_not_rate_limited, record_failed_login, reset}
use flash_core.Auth.Repository.{
  has_hash, has_token_id, is_live_in, revoke_row, create_user, create_refresh_token, revoke_token,
  rotate_refresh_token, revoke_family, find_user_by_email, find_user_by_id, has_email,
  find_refresh_token_by_hash,
}
use flash_core.Auth.Service.{
  AuthResult, register_with, register, refuse_login, login_with, login, check_stored, check_refresh,
  finish_refresh, refresh, logout_stored, logout, refuse_reuse, owner_of, password_matches,
  token_row,
}
use flash_core.Auth.Rotation.{refresh_reused, refresh_ok_revokes}

-- What the routes of auth.controller.ts ask of the service.
pub data Request : Type 0 where
  registers logs_in : Draw → ℕ → ℕ → Request
  refreshes : Draw → ℕ → Request
  logs_out : Draw → Option ℕ → Request

-- A revoked token of the family.
abbrev pub is_spent_in : ℕ → Option RefreshToken → Bool
is_spent_in family none = false
is_spent_in family (some t) = t.family_id == family && is_some t.revoked_at

module _ (hash family : ℕ) where
  abbrev IsSpent : List RefreshToken → Type 0
  IsSpent tokens = is_spent_in family (find (has_hash hash) tokens) ≡ true

  revoke-IsSpent :
      (p : RefreshToken → Bool) (now : ℕ) (tokens : List RefreshToken)
      → IsSpent tokens
      → IsSpent (update_where p (revoke_row now) tokens)
  revoke-IsSpent p now tokens spent =
      ground (arith, find-update_where p (has_hash hash) (revoke_row now) (λ x. refl) tokens)

  insert-IsSpent :
      (t : RefreshToken) (tokens : List RefreshToken)
      → IsSpent tokens
      → IsSpent (tokens ++ (t ∷ []))
  insert-IsSpent t tokens spent = ground (arith, find-append (has_hash hash) tokens (t ∷ []))

module _ (crypto : Crypto) (limits : Limits) (hash family : ℕ) where
  register-IsSpent :
      (draw : Draw) (email password : ℕ) (s : Accounts)
      → IsSpent hash family s.tokens
      → IsSpent hash family (register crypto limits draw email password s).1.tokens
  unfolding register register_with create_user find_user_by_email
  register-IsSpent draw email password s spent = ground arith

  login_with-IsSpent :
      (draw : Draw) (email : ℕ) (u : Option User) (matches : Bool) (s : Accounts)
      → IsSpent hash family s.tokens
      → IsSpent hash family (login_with crypto limits draw email u matches s).1.tokens
  unfolding login_with refuse_login record_failed_login reset create_refresh_token
  login_with-IsSpent draw email none matches s spent = spent
  login_with-IsSpent draw email (some u) false s spent = spent
  login_with-IsSpent draw email (some u) true s spent = ground (
    arith,
    insert-IsSpent hash family (token_row crypto limits draw u.id draw.family_id) s.tokens spent,
  )

  login-IsSpent :
      (draw : Draw) (email password : ℕ) (s : Accounts)
      → IsSpent hash family s.tokens
      → IsSpent hash family (login crypto limits draw email password s).1.tokens
  unfolding login assert_not_rate_limited find_user_by_email
  login-IsSpent draw email password s spent =
      let u = find (has_email email) s.users in
      ground
        (arith, login_with-IsSpent draw email u (password_matches crypto limits u password) s spent)

  check_stored-IsSpent :
      (draw : Draw) (stored : Option RefreshToken) (s : Accounts)
      → IsSpent hash family s.tokens
      → IsSpent hash family (check_stored crypto limits draw stored s).1.tokens
  unfolding check_stored refuse_reuse revoke_family owner_of find_user_by_id
  check_stored-IsSpent draw none s spent = spent
  check_stored-IsSpent draw (some t) s spent =
      ground (arith, revoke-IsSpent hash family (is_live_in t.family_id) draw.now s.tokens spent)

  -- The rotation after the check.
  rotated-IsSpent :
      (draw : Draw) (s : Accounts) (res : Result (RefreshToken × User) × Accounts)
      → IsSpent hash family res.1.tokens
      → IsSpent hash family (◌>>=◌ (λ _. res) (finish_refresh crypto limits draw) s).1.tokens
  unfolding finish_refresh rotate_refresh_token revoke_token create_refresh_token
  rotated-IsSpent draw s (err e, v) spent = spent
  rotated-IsSpent draw s (ok (t, u), v) spent =
      let tokens = update_where (has_token_id t.id) (revoke_row draw.now) v.tokens in
      ground (
        arith,
        insert-IsSpent hash family (token_row crypto limits draw u.id t.family_id) tokens
            (revoke-IsSpent hash family (has_token_id t.id) draw.now v.tokens spent),
      )

  refresh-IsSpent :
      (draw : Draw) (raw : ℕ) (s : Accounts)
      → IsSpent hash family s.tokens
      → IsSpent hash family (refresh crypto limits draw raw s).1.tokens
  unfolding refresh check_refresh find_refresh_token_by_hash
  refresh-IsSpent draw raw s spent =
      let stored = find (has_hash (crypto.hash_token raw)) s.tokens in
      rotated-IsSpent draw s (check_stored crypto limits draw stored s)
        (check_stored-IsSpent draw stored s spent)

  logout_stored-IsSpent :
      (draw : Draw) (stored : Option RefreshToken) (s : Accounts)
      → IsSpent hash family s.tokens
      → IsSpent hash family (logout_stored crypto limits draw stored s).1.tokens
  unfolding logout_stored revoke_token
  logout_stored-IsSpent draw none s spent = spent
  logout_stored-IsSpent draw (some t) s spent =
      ground (arith, revoke-IsSpent hash family (has_token_id t.id) draw.now s.tokens spent)

  logout-IsSpent :
      (draw : Draw) (raw : Option ℕ) (s : Accounts)
      → IsSpent hash family s.tokens
      → IsSpent hash family (logout crypto limits draw raw s).1.tokens
  unfolding logout find_refresh_token_by_hash
  logout-IsSpent draw none s spent = spent
  logout-IsSpent draw (some raw) s spent =
      logout_stored-IsSpent draw (find (has_hash (crypto.hash_token raw)) s.tokens) s spent

module _ (crypto : Crypto) (limits : Limits) where
  -- The tables after a request, whatever the answer was.
  abbrev pub serve : Request → Accounts → Accounts
  serve (Request.registers draw email password) s = (register crypto limits draw email password s).1
  serve (Request.logs_in draw email password) s = (login crypto limits draw email password s).1
  serve (Request.refreshes draw raw) s = (refresh crypto limits draw raw s).1
  serve (Request.logs_out draw raw) s = (logout crypto limits draw raw s).1

  abbrev pub serve_all : List Request → Accounts → Accounts
  serve_all [] s = s
  serve_all (request ∷ requests) s = serve_all requests (serve request s)

  serve-IsSpent :
      (hash family : ℕ) (request : Request) (s : Accounts)
      → IsSpent hash family s.tokens
      → IsSpent hash family (serve request s).tokens
  serve-IsSpent hash family (Request.registers draw email password) s =
      register-IsSpent crypto limits hash family draw email password s
  serve-IsSpent hash family (Request.logs_in draw email password) s =
      login-IsSpent crypto limits hash family draw email password s
  serve-IsSpent hash family (Request.refreshes draw raw) s =
      refresh-IsSpent crypto limits hash family draw raw s
  serve-IsSpent hash family (Request.logs_out draw raw) s =
      logout-IsSpent crypto limits hash family draw raw s

  serve_all-IsSpent :
      (hash family : ℕ) (requests : List Request) (s : Accounts)
      → IsSpent hash family s.tokens
      → IsSpent hash family (serve_all requests s).tokens
  serve_all-IsSpent hash family [] s spent = spent
  serve_all-IsSpent hash family (request ∷ requests) s spent =
      serve_all-IsSpent hash family requests (serve request s)
        (serve-IsSpent hash family request s spent)

  -- A spent token is refused, and its family ended.
  spent_refused :
      (later : Draw) (raw family : ℕ) (s : Accounts) (found : Option RefreshToken)
      → find (has_hash (crypto.hash_token raw)) s.tokens ≡ found
      → is_spent_in family found ≡ true
      → let replay = refresh crypto limits later raw s in
        (replay.0 ≡ err Error.invalid_refresh_token)
        × (count_where (is_live_in family) replay.1.tokens ≡ 0)
  spent_refused later raw family s none e spent = absurd (cc)
  spent_refused later raw family s (some t) e spent = elim (Option-cases t.revoked_at) [
    | inl live ↦ absurd (ground (arith, live))
    | inr (r, revoked) ↦
        let same : t.family_id ≡ family = ground arith in
        subst
          (λ family.
            ((refresh crypto limits later raw s).0 ≡ err Error.invalid_refresh_token)
            × (count_where (is_live_in family) (refresh crypto limits later raw s).1.tokens ≡ 0))
          same (refresh_reused crypto limits later raw s t r e revoked)
  ]

  -- Requests one after the other, each of them whole: once a refresh has accepted a token, then after
  -- any registrations, logins, refreshes and logouts, successful or not, a refresh with that token is
  -- refused, and leaves no live token in the token's family, those included that were issued since.
  pub refresh_replayed :
      (draw later : Draw) (raw : ℕ) (s : Accounts) (t : RefreshToken) (a : AuthResult)
      (requests : List Request)
      → find (has_hash (crypto.hash_token raw)) s.tokens ≡ some t
      → (refresh crypto limits draw raw s).0 ≡ ok a
      → let replay =
          refresh crypto limits later raw
            (serve_all requests (refresh crypto limits draw raw s).1) in
        (replay.0 ≡ err Error.invalid_refresh_token)
        × (count_where (is_live_in t.family_id) replay.1.tokens ≡ 0)
  refresh_replayed draw later raw s t a requests found done =
      let after = (refresh crypto limits draw raw s).1 in
      spent_refused later raw t.family_id (serve_all requests after) _ refl (
        serve_all-IsSpent (crypto.hash_token raw) t.family_id requests after (
          rw (refresh_ok_revokes crypto limits draw raw s t a found done, ==_refl t.family_id)
            refl))
