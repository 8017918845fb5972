-- ===== src/Auth/Entry.antt =====
-- Who gets in: what a registration makes a login accept, and how many passwords can be tried.
use flash_core.Common.{
  ℕ, ◌+◌, ◌*◌, ◌≤◌, ◌<◌, ◌≡◌, refl, sym, ap, inl, inr, Bool-cases, Bool, true, false, Option, none,
  some, List, [], ◌∷◌, ◌++◌, ◌||◌, ltb, is_some, if◌then◌else◌, arith, ==_refl,
}
use flash_core.Common.Table.{find, find-append, find-or_none}
use flash_core.Store.{Result, ok, err, Error, set_key}
use flash_core.Auth.Rows.{User, Counter, Accounts, Crypto, Limits, Draw}
use flash_core.Auth.Repository.{has_email, has_user_id, has_hash, has_token_id, new_user}
use flash_core.Auth.Counters.{live_count, bumped}
use flash_core.Auth.Service.{AuthResult, token_row, signed_in, password_matches, register, login}

-- What a login draws, and the password tried.
abbrev pub Attempt : Type 0
Attempt = Draw × ℕ

module _ (crypto : Crypto) (limits : Limits) where
  abbrev pub failed_once : Draw → ℕ → Accounts → Accounts
  failed_once draw email s = record s {
    attempts =
        set_key s.attempts email
          (some (bumped draw.now limits.login_rate_limit_window (s.attempts email)));
  }

  login_limited :
      (draw : Draw) (email password : ℕ) (s : Accounts)
      → 1 ≤ limits.login_rate_limit_max
      → limits.login_rate_limit_max ≤ live_count draw.now (s.attempts email)
      → login crypto limits draw email password s ≡ (err Error.too_many_login_attempts, s)
  unfolding login
  login_limited draw email password s positive reached = ground arith

  login_wrong :
      (draw : Draw) (email password : ℕ) (s : Accounts)
      → live_count draw.now (s.attempts email) < limits.login_rate_limit_max
      → password_matches crypto limits (find (has_email email) s.users) password ≡ false
      → login crypto limits draw email password s
        ≡ (err Error.invalid_credentials, failed_once draw email s)
  unfolding login
  login_wrong draw email password s below wrong = ground arith

  -- One attempt, and whether the password was looked at.
  abbrev pub is_limited : Result AuthResult → Bool
  is_limited (err Error.too_many_login_attempts) = true
  is_limited (err _) = false
  is_limited (ok a) = false

  abbrev pub guesses : ℕ → List Attempt → Accounts → ℕ
  guesses email [] s = 0
  guesses email ((draw, password) ∷ attempts) s =
      (if is_limited (login crypto limits draw email password s).0 then 0 else 1)
      + guesses email attempts (login crypto limits draw email password s).1

  -- The attempts fall in one window from `start`, and no password is the user's.
  abbrev pub AllWrong : ℕ → ℕ → List User → List Attempt → Type 0
  AllWrong start email users [] = Unit
  AllWrong start email users ((draw, password) ∷ attempts) =
      (start ≤ draw.now)
      × (draw.now < start + limits.login_rate_limit_window * 1000)
      × (password_matches crypto limits (find (has_email email) users) password ≡ false)
      × AllWrong start email users attempts

  -- The counter stands at `n` and does not die before the window ends.
  abbrev Counts : ℕ → ℕ → Option Counter → Type 0
  Counts start n none = n ≡ 0
  Counts start n (some c) =
      (c.count ≡ n) × (start + limits.login_rate_limit_window * 1000 ≤ c.dies_at)

  live_count-Counts :
      (start n now : ℕ) (c : Option Counter)
      → Counts start n c
      → now < start + limits.login_rate_limit_window * 1000
      → live_count now c ≡ n
  live_count-Counts start n now none h before = sym h
  live_count-Counts start n now (some c) h before = ground arith

  bumped-Counts :
      (start n now : ℕ) (c : Option Counter)
      → Counts start n c
      → start ≤ now
      → now < start + limits.login_rate_limit_window * 1000
      → Counts start (n + 1) (some (bumped now limits.login_rate_limit_window c))
  bumped-Counts start n now c h from before =
      (ap (λ k. k + 1) (live_count-Counts start n now c h before), omega arith)

  failed_once-Counts :
      (start n email : ℕ) (draw : Draw) (s : Accounts)
      → Counts start n (s.attempts email)
      → start ≤ draw.now
      → draw.now < start + limits.login_rate_limit_window * 1000
      → Counts start (n + 1) ((failed_once draw email s).attempts email)
  failed_once-Counts start n email draw s h from before =
      rw (==_refl email) (bumped-Counts start n draw.now (s.attempts email) h from before)

  guesses_left :
      (start n email : ℕ) (attempts : List Attempt) (s : Accounts)
      → 1 ≤ limits.login_rate_limit_max
      → n ≤ limits.login_rate_limit_max
      → Counts start n (s.attempts email)
      → AllWrong start email s.users attempts
      → guesses email attempts s + n ≤ limits.login_rate_limit_max
  guesses_left start n email [] s positive within h wrong = omega arith
  guesses_left start n email ((draw, password) ∷ attempts) s positive within h wrong =
      elim (Bool-cases (ltb n limits.login_rate_limit_max)) [
        | inl below ↦
            rw
              (login_wrong draw email password s
                (rw (live_count-Counts start n draw.now (s.attempts email) h wrong.1)
                  (ground arith))
                wrong.2)
              (omega (
                arith,
                guesses_left start (n + 1) email attempts (failed_once draw email s) positive
                    (ground arith) (failed_once-Counts start n email draw s h wrong.0 wrong.1)
                    wrong.3,
              ))
        | inr full ↦
            rw
              (login_limited draw email password s positive (
                rw (live_count-Counts start n draw.now (s.attempts email) h wrong.1)
                  (ground arith)))
              (omega (arith, guesses_left start n email attempts s positive within h wrong.3))
      ]

  -- In one window of LOGIN_RATE_LIMIT_WINDOW seconds, however many wrong passwords are tried for an
  -- email without a counter, no more than LOGIN_RATE_LIMIT_MAX of them are looked at.
  pub guesses-le-max :
      (start email : ℕ) (attempts : List Attempt) (s : Accounts)
      → 1 ≤ limits.login_rate_limit_max
      → s.attempts email ≡ none
      → AllWrong start email s.users attempts
      → guesses email attempts s ≤ limits.login_rate_limit_max
  guesses-le-max start email attempts s positive fresh wrong =
      omega
        (arith, guesses_left start 0 email attempts s positive (omega arith) (rw fresh refl) wrong)

  abbrev pub registered : Draw → ℕ → ℕ → Accounts → Accounts
  registered draw email password s = record s {
    users = s.users ++ (new_user draw.row_id email (crypto.hash_password password draw.salt) ∷ []);
  }

  register_lem :
      (draw : Draw) (email password : ℕ) (s : Accounts)
      → find (λ u. has_user_id draw.row_id u || has_email email u) s.users ≡ none
      → register crypto limits draw email password s
        ≡ (ok (record { id = draw.row_id; email = email }), registered draw email password s)
  unfolding register
  register_lem draw email password s unused =
      ground (
        arith,
        find-or_none (has_user_id draw.row_id) (has_email email) s.users (ap is_some unused),
      )

  find-registered :
      (draw : Draw) (email password : ℕ) (s : Accounts)
      → find (λ u. has_user_id draw.row_id u || has_email email u) s.users ≡ none
      → find (has_email email) (registered draw email password s).users
        ≡ some (new_user draw.row_id email (crypto.hash_password password draw.salt))
  find-registered draw email password s unused = ground (
    arith,
    find-or_none (has_user_id draw.row_id) (has_email email) s.users (ap is_some unused),
    find-append (has_email email) s.users
        (new_user draw.row_id email (crypto.hash_password password draw.salt) ∷ []),
    ==_refl email,
  )

  login_right :
      (draw : Draw) (email password : ℕ) (s : Accounts) (u : User)
      → find (has_email email) s.users ≡ some u
      → crypto.verify_password u.password_hash password ≡ true
      → live_count draw.now (s.attempts email) < limits.login_rate_limit_max
      → find
          (λ t.
            has_token_id draw.row_id t
            || has_hash (token_row crypto limits draw u.id draw.family_id).token_hash t)
          s.tokens
        ≡ none
      → (login crypto limits draw email password s).0
        ≡ ok (signed_in crypto limits draw u draw.family_id)
  unfolding login
  login_right draw email password s u found right below unused = ground arith

  -- A registration under an unused id and email, and then a login with the same password, sign the
  -- new user in as an ordinary user: argon2 verifies what it has hashed, the login counter is below
  -- the limit, and the token's row is new.
  pub login-register :
      (draw later : Draw) (email password : ℕ) (s : Accounts)
      → crypto.verify_password (crypto.hash_password password draw.salt) password ≡ true
      → find (λ u. has_user_id draw.row_id u || has_email email u) s.users ≡ none
      → live_count later.now (s.attempts email) < limits.login_rate_limit_max
      → find
          (λ t.
            has_token_id later.row_id t
            || has_hash (token_row crypto limits later draw.row_id later.family_id).token_hash t)
          s.tokens
        ≡ none
      → let after = (register crypto limits draw email password s).1 in
        (login crypto limits later email password after).0
        ≡ ok (
            signed_in crypto limits later
              (new_user draw.row_id email (crypto.hash_password password draw.salt))
              later.family_id)
  login-register draw later email password s verifies unused below free =
      rw (register_lem draw email password s unused) (
        login_right later email password (registered draw email password s)
          (new_user draw.row_id email (crypto.hash_password password draw.salt))
          (find-registered draw email password s unused) verifies below free)
