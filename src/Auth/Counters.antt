-- ===== src/Auth/Counters.antt =====
-- Counters with a time to live: `incrementWithExpiry` and `reset` of redis.service.ts, and what
-- auth.service.ts and ip-rate-limit.guard.ts ask of them.
use flash_core.Common.{ℕ, ◌+◌, ◌*◌, Option, none, some, ltb, leb, ◌&&◌, if◌then◌else◌}
use flash_core.Store.{Action, Error, throw_if, gets, modify, set_key, ◌>>=◌}
use flash_core.Auth.Rows.{Counter, Accounts, Limits}

-- What `GET` finds at `now`: a key that has died is not there.
abbrev pub live_count : ℕ → Option Counter → ℕ
live_count now none = 0
live_count now (some c) = if ltb now c.dies_at then c.count else 0

-- `INCR` and `EXPIRE` in one `multi()`: the window starts anew at every call.
abbrev pub bumped : ℕ → ℕ → Option Counter → Counter
bumped now window c = record { count = live_count now c + 1; dies_at = now + window * 1000 }

unfoldable pub assert_not_rate_limited : Limits → ℕ → ℕ → Action Accounts (Unit {0})
assert_not_rate_limited limits now email = do
  attempts ← gets λ s. live_count now (s.attempts email)
  throw_if (ltb 0 attempts && leb limits.login_rate_limit_max attempts)
      Error.too_many_login_attempts

unfoldable pub record_failed_login : Limits → ℕ → ℕ → Action Accounts (Unit {0})
record_failed_login limits now email = modify λ s. record s {
  attempts =
      set_key s.attempts email
        (some (bumped now limits.login_rate_limit_window (s.attempts email)));
}

unfoldable pub reset : ℕ → Action Accounts (Unit {0})
reset email = modify λ s. record s { attempts = set_key s.attempts email none }
