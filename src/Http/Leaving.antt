-- ===== src/Http/Leaving.antt =====
-- Logging out and what the browser may still try.
use flash_core.Common.{ℕ, ◌≡◌, refl, Option, none, some, [], map, arith, ==_refl}
use flash_core.Common.Table.{find, exists-find}
use flash_core.Store.{Result, ok, err, Error}
use flash_core.Auth.{
  Accounts, Crypto, Limits, Draw, RefreshToken, has_token_id, TokenPair, AuthResult, has_hash,
  logout_stored, logout, refresh,
}
use flash_core.Auth.Rotation.{refresh-logout}
use flash_core.Http.Filter.{catch_exception}
use flash_core.Http.Probes.{status_of}
use flash_core.Http.Sessions.{
  CookieEnv, Granted, set_auth_cookies, clear_auth_cookies, signed_in_reply, left_reply,
  refresh_route, logout_route,
}

module _ (id : ℕ) (crypto : Crypto) (limits : Limits) (env : CookieEnv) where
  logout_stored-ok :
      (draw : Draw) (raw : ℕ) (stored : Option RefreshToken) (s : Accounts)
      → find (has_hash (crypto.hash_token raw)) s.tokens ≡ stored
      → (logout_stored crypto limits draw stored s).0 ≡ ok tt
  unfolding logout_stored
  logout_stored-ok draw raw none s found = refl
  logout_stored-ok draw raw (some t) s found = ground (
    arith,
    exists-find (has_hash (crypto.hash_token raw)) (has_token_id t.id) s.tokens t found
        (==_refl t.id),
  )

  logout-ok :
      (draw : Draw) (raw : ℕ) (s : Accounts) → (logout crypto limits draw (some raw) s).0 ≡ ok tt
  unfolding logout
  logout-ok draw raw s =
      logout_stored-ok draw raw (find (has_hash (crypto.hash_token raw)) s.tokens) s refl

  left-Leaves :
      (r : Result (Unit {0})) (tokens : TokenPair)
      → r ≡ ok tt
      → (status_of (left_reply id crypto limits env r).answer ≡ 204)
        × ((left_reply id crypto limits env r).cleared
            ≡ map (λ (g : Granted). g.cookie) (set_auth_cookies env tokens))
  unfolding set_auth_cookies clear_auth_cookies
  left-Leaves (ok a) tokens fine = (refl, refl)
  left-Leaves (err e) tokens fine = absurd (cc)

  refused_again :
      (r : Result AuthResult)
      → r ≡ err Error.invalid_refresh_token
      → (status_of (signed_in_reply id crypto limits env r).answer ≡ 401)
        × ((signed_in_reply id crypto limits env r).granted ≡ [])
  unfolding catch_exception
  refused_again r e = rw e (refl, refl)

  -- A logout answers 204 and clears the cookies of the names, paths and flags that a login sets,
  -- whatever tokens were in them; a later refresh with the token of that logout is answered 401 and
  -- sets no cookie.
  pub refresh_route-logout_route :
      (draw later : Draw) (raw : ℕ) (tokens : TokenPair) (s : Accounts)
      → let (left, s') = logout_route id crypto limits env draw (some raw) s in
        let again = (refresh_route id crypto limits env later (some raw) s').0 in
        (status_of left.answer ≡ 204)
        × (left.cleared ≡ map (λ (g : Granted). g.cookie) (set_auth_cookies env tokens))
        × (status_of again.answer ≡ 401)
        × (again.granted ≡ [])
  unfolding logout_route refresh_route
  refresh_route-logout_route draw later raw tokens s =
      let left =
        left-Leaves (logout crypto limits draw (some raw) s).0 tokens (logout-ok draw raw s) in
      let again =
        refused_again (refresh crypto limits later raw (logout crypto limits draw (some raw) s).1).0
          (refresh-logout crypto limits draw later raw s) in
      (left.0, left.1, again.0, again.1)
