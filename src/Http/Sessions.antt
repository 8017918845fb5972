-- ===== src/Http/Sessions.antt =====
-- AuthController (auth.controller.ts) behind its guards, and auth.cookies.ts. A request's cookie is
-- what the browser sends, if it sends one; the limits by address are in Auth/Guards.
use flash_core.Common.{ℕ, ◌*◌, Bool, true, Option, none, some, List, [], ◌∷◌}
use flash_core.Store.{Result, ok, err, Error}
use flash_core.Auth.{
  Accounts, Crypto, Limits, Draw, PublicUser, TokenPair, AuthResult, register, login, refresh,
  logout, find_public_user,
}
use flash_core.Http.Errors.{Code, DomainError, AuthError}
use flash_core.Http.Filter.{Exception, catch_exception}
use flash_core.Http.Probes.{Answer}
use flash_core.Http.Routes.{exception_of, refused}

pub data CookieName : Type 0 where
  access_token refresh_token : CookieName

-- `/` and REFRESH_COOKIE_PATH.
pub data CookiePath : Type 0 where
  root auth : CookiePath

pub record CookieOptions : Type 0 where
  pub http_only : Bool
  pub secure : Bool
  pub same_site_strict : Bool

pub record CookieEnv : Type 0 where
  pub cookie_secure : Bool
  pub access_token_ttl : ℕ
  pub refresh_token_ttl : ℕ

-- `res.cookie` and `res.clearCookie`.
pub record Cookie : Type 0 where
  pub name : CookieName
  pub path : CookiePath
  pub options : CookieOptions

pub record Granted : Type 0 where
  pub cookie : Cookie
  pub value : ℕ
  pub max_age : ℕ

unfoldable pub base_options : CookieEnv → CookieOptions
base_options env = record { http_only = true; secure = env.cookie_secure; same_site_strict = true }

unfoldable pub set_auth_cookies : CookieEnv → TokenPair → List Granted
unfolding base_options
set_auth_cookies env tokens =
    record {
      cookie = record {
        name = CookieName.access_token;
        path = CookiePath.root;
        options = base_options env;
      };
      value = tokens.access_token;
      max_age = env.access_token_ttl * 1000;
    }
    ∷ record {
      cookie = record {
        name = CookieName.refresh_token;
        path = CookiePath.auth;
        options = base_options env;
      };
      value = tokens.refresh_token;
      max_age = env.refresh_token_ttl * 1000;
    }
    ∷ []

unfoldable pub clear_auth_cookies : CookieEnv → List Cookie
unfolding base_options
clear_auth_cookies env =
    record { name = CookieName.access_token; path = CookiePath.root; options = base_options env }
    ∷ record { name = CookieName.refresh_token; path = CookiePath.auth; options = base_options env }
    ∷ []

-- An answer with the cookies that it sets and clears.
pub record Reply (A : Type 0) : Type 0 where
  pub answer : Answer A
  pub granted : List Granted
  pub cleared : List Cookie

abbrev bare : {A : Type 0} → Answer A → Reply A
bare answer = record { answer = answer; granted = []; cleared = [] }

module _ (id : ℕ) (crypto : Crypto) (limits : Limits) (env : CookieEnv) where
  abbrev thrown : Error → Exception
  thrown Error.too_many_login_attempts =
      Exception.domain
        (DomainError.auth (AuthError.too_many_login_attempts limits.login_rate_limit_window))
  thrown e = exception_of e

  abbrev failed : {A : Type 0} → Exception → Reply A
  failed e = bare (Answer.failure (catch_exception id e))

  -- The user goes into the body, the tokens into cookies alone.
  abbrev pub signed_in_reply : Result AuthResult → Reply PublicUser
  signed_in_reply (ok a) = record {
    answer = Answer.success 200 a.account;
    granted = set_auth_cookies env a.tokens;
    cleared = [];
  }
  signed_in_reply (err e) = failed (thrown e)

  abbrev registered_reply : Result PublicUser → Reply PublicUser
  registered_reply (ok u) = bare (Answer.success 201 u)
  registered_reply (err e) = failed (thrown e)

  unfoldable pub register_route : Draw → Option (ℕ × ℕ) → Accounts → Reply PublicUser × Accounts
  unfolding register catch_exception
  register_route draw none s = (failed (thrown Error.validation_failed), s)
  register_route draw (some (email, password)) s =
      let (r, s') = register crypto limits draw email password s in (registered_reply r, s')

  unfoldable pub login_route : Draw → Option (ℕ × ℕ) → Accounts → Reply PublicUser × Accounts
  unfolding login set_auth_cookies catch_exception
  login_route draw none s = (failed (thrown Error.validation_failed), s)
  login_route draw (some (email, password)) s =
      let (r, s') = login crypto limits draw email password s in (signed_in_reply r, s')

  -- No cookie, or an empty one, does not reach the service.
  unfoldable pub refresh_route : Draw → Option ℕ → Accounts → Reply PublicUser × Accounts
  unfolding refresh set_auth_cookies catch_exception
  refresh_route draw none s = (failed (refused 401 Code.invalid_refresh_token), s)
  refresh_route draw (some token) s =
      let (r, s') = refresh crypto limits draw token s in (signed_in_reply r, s')

  abbrev pub left_reply : Result (Unit {0}) → Reply (Unit {0})
  left_reply (ok a) = record {
    answer = Answer.success 204 tt;
    granted = [];
    cleared = clear_auth_cookies env;
  }
  left_reply (err e) = failed (thrown e)

  unfoldable pub logout_route : Draw → Option ℕ → Accounts → Reply (Unit {0}) × Accounts
  unfolding logout clear_auth_cookies catch_exception
  logout_route draw token s = let (r, s') = logout crypto limits draw token s in (left_reply r, s')

  abbrev me_reply : Result (Option PublicUser) → Reply PublicUser
  me_reply (ok (some u)) = bare (Answer.success 200 u)
  me_reply (ok none) = failed (refused 401 Code.user_not_found)
  me_reply (err e) = failed (thrown e)

  unfoldable pub me_route : ℕ → Accounts → Reply PublicUser × Accounts
  unfolding find_public_user catch_exception
  me_route user s = let (r, s') = find_public_user crypto limits user s in (me_reply r, s')
