-- ===== src/Auth/Guards.antt =====
-- What stands before a route: access-token.guard.ts, optional-access-token.guard.ts, roles.guard.ts
-- and ip-rate-limit.guard.ts. `verify` is `jwt.verifyAsync` with JWT_ACCESS_SECRET: the payload's
-- `sub` and `role`, or nothing if it throws.
use flash_core.Common.{
  ℕ, ◌+◌, ◌≡◌, ◌↔◌, refl, ap, ◌∙◌, Bool, true, false, Option, none, some, List, [], ◌∷◌, ◌||◌, ltb,
  if◌then◌else◌, arith,
}
use flash_core.Store.{
  Result, ok, err, Error, Action, pure, throw_if, gets, modify, set_key, ◌>>=◌, ◌>>◌,
}
use flash_core.Auth.Rows.{Role, Counter}
use flash_core.Auth.Counters.{live_count, bumped}

abbrev pub Verifier : Type 0
Verifier = ℕ → Option (ℕ × Option Role)

pub record Caller : Type 0 where
  pub user_id : ℕ
  pub role : Role

-- A token from before there were roles carries none.
abbrev pub role_or_user : Option Role → Role
role_or_user none = Role.user
role_or_user (some r) = r

abbrev pub caller_of : ℕ × Option Role → Caller
caller_of (sub, role) = record { user_id = sub; role = role_or_user role }

unfoldable pub verified : Option (ℕ × Option Role) → Result Caller
verified none = err Error.invalid_access_token
verified (some payload) = ok (caller_of payload)

unfoldable pub access_token_guard : Verifier → Option ℕ → Result Caller
unfolding verified
access_token_guard verify none = err Error.unauthenticated
access_token_guard verify (some token) = verified (verify token)

abbrev pub visitor : Option (ℕ × Option Role) → Option Caller
visitor none = none
visitor (some payload) = some (caller_of payload)

-- A bad token makes the caller a visitor, it does not stop the request.
unfoldable pub optional_access_token_guard : Verifier → Option ℕ → Option Caller
optional_access_token_guard verify none = none
optional_access_token_guard verify (some token) = visitor (verify token)

abbrev pub same_role : Role → Role → Bool
same_role Role.user Role.user = true
same_role Role.user Role.admin = false
same_role Role.admin Role.user = false
same_role Role.admin Role.admin = true

-- `required.includes(role)`
abbrev pub includes : List Role → Role → Bool
includes [] role = false
includes (r ∷ required) role = same_role r role || includes required role

-- A request that no AccessTokenGuard has seen has no role.
unfoldable pub roles_guard : List Role → Option Role → Result (Unit {0})
roles_guard [] role = ok tt
roles_guard (r ∷ required) none = err Error.forbidden_role
roles_guard (r ∷ required) (some role) =
    if includes (r ∷ required) role then ok tt else err Error.forbidden_role

-- `@UseGuards(AccessTokenGuard, RolesGuard)` with `@Roles(...)`.
unfoldable pub role_checked : List Role → Caller → Result Caller
unfolding roles_guard
role_checked required caller = elim (roles_guard required (some caller.role)) [
  | ok a ↦ ok caller
  | err e ↦ err e
]

unfoldable pub guarded : Verifier → List Role → Option ℕ → Result Caller
unfolding access_token_guard role_checked
guarded verify required cookie = elim (access_token_guard verify cookie) [
  | ok caller ↦ role_checked required caller
  | err e ↦ err e
]

-- The keys `ratelimit:ip:<name>:<ip>` of one route.
abbrev pub Hits : Type 0
Hits = ℕ → Option Counter

unfoldable pub increment_with_expiry : ℕ → ℕ → ℕ → Action Hits ℕ
increment_with_expiry now window ip = do
  count ← gets λ hits. live_count now (hits ip) + 1
  modify λ hits. set_key hits ip (some (bumped now window (hits ip)))
  pure count

unfoldable pub ip_rate_limit_guard : ℕ → ℕ → ℕ → ℕ → Action Hits (Unit {0})
unfolding increment_with_expiry
ip_rate_limit_guard max window now ip = do
  count ← increment_with_expiry now window ip
  throw_if (ltb max count) Error.too_many_requests

abbrev let_in : List Role → Result Caller → Result Caller
let_in required r = elim r [ ok caller ↦ role_checked required caller | err e ↦ err e ]

admin_verified :
    (v : Option (ℕ × Option Role)) (caller : Caller)
    → let_in (Role.admin ∷ []) (verified v) ≡ ok caller
    → (v ≡ some (caller.user_id, some Role.admin)) × (caller.role ≡ Role.admin)
unfolding verified role_checked
admin_verified none caller h = absurd (cc)
admin_verified (some (sub, none)) caller h = absurd (cc)
admin_verified (some (sub, some Role.user)) caller h = absurd (cc)
admin_verified (some (sub, some Role.admin)) caller h = ground arith

admin_admitted :
    (verify : Verifier) (cookie : Option ℕ) (caller : Caller)
    → guarded verify (Role.admin ∷ []) cookie ≡ ok caller
    → (token : ℕ) × (cookie ≡ some token)
      × (verify token ≡ some (caller.user_id, some Role.admin))
      × (caller.role ≡ Role.admin)
unfolding guarded
admin_admitted verify none caller h = absurd (cc)
admin_admitted verify (some token) caller h =
    let found = admin_verified (verify token) caller h in (token, refl, found.0, found.1)

-- A route for administrators lets a caller in exactly if the cookie holds a token that verifies and
-- carries the role ADMIN.
pub guarded-admin :
    (verify : Verifier) (cookie : Option ℕ) (caller : Caller)
    → (guarded verify (Role.admin ∷ []) cookie ≡ ok caller) ↔ (
        (token : ℕ) × (cookie ≡ some token)
        × (verify token ≡ some (caller.user_id, some Role.admin))
        × (caller.role ≡ Role.admin))
unfolding guarded
guarded-admin verify cookie caller = (
  admin_admitted verify cookie caller,
  λ (token, given, valid, is_admin).
      rw given (ap (λ v. let_in (Role.admin ∷ []) (verified v)) valid ∙ ground arith),
)
