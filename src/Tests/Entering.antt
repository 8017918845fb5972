-- ===== src/Tests/Entering.antt =====
-- Accounts and sessions of the shop.
use flash_core.Common.{
  ℕ, ◌+◌, ◌*◌, ◌≤◌, ◌≡◌, ◌↔◌, refl, none, some, List, [], ◌∷◌, ◌==◌, if◌then◌else◌, arith,
}
use flash_core.Common.Table.{find, count_where}
use flash_core.Store.{ok, err, Error}
use flash_core.Auth.{
  Role, User, RefreshToken, Accounts, Crypto, Limits, Draw, has_token_id, is_live_in, new_user,
  token_row, signed_in, refresh_token_of, register, login, check_refresh, finish_refresh, refresh,
  logout,
}
use flash_core.Auth.Rotation.{rotated, refresh_rotates, refresh-logout}
use flash_core.Auth.Replay.{Request, serve_all, refresh_replayed}
use flash_core.Auth.Entry.{guesses, guesses-le-max, login-register, Attempt}
use flash_core.Auth.Race.{refresh_race}
use flash_core.Auth.Guards.{Verifier, guarded, guarded-admin}

-- Codes that are easy to tell apart.
abbrev pub toy : Crypto
toy = record {
  hash_password = λ password salt. password + 1_000_000 * salt;
  verify_password = λ hash password. hash == password + 1_000_000 * (7);
  hash_token = λ t. t + 5;
  sign_access = λ user role now. user + now;
  sign_refresh = λ user family jti now. user + 1000 * family + 1_000_000 * jti;
  dummy_hash = 0;
}

abbrev pub limits : Limits
limits = record { refresh_token_ttl = 600; login_rate_limit_max = 2; login_rate_limit_window = 60 }

abbrev lan : User
lan = record { id = 100; email = 31; password_hash = 7_000_042; role = Role.user }

abbrev lan_token : RefreshToken
lan_token = record {
  id = 1;
  user_id = 100;
  token_hash = 905;
  family_id = 3;
  expires_at = 9000;
  revoked_at = none;
}

abbrev pub accounts : Accounts
accounts = record { users = lan ∷ []; tokens = lan_token ∷ []; attempts = λ e. none }

abbrev pub first_draw : Draw
first_draw = record { row_id = 2; family_id = 4; jti = 8; salt = 7; now = 500 }

abbrev pub second_draw : Draw
second_draw = record { row_id = 3; family_id = 5; jti = 9; salt = 7; now = 600 }

login_run :
    (login toy limits first_draw 31 42 accounts).0 ≡ ok (signed_in toy limits first_draw lan 4)
unfolding login
login_run = refl

refresh_rotates_example : refresh toy limits first_draw 900 accounts ≡ (
  ok (signed_in toy limits first_draw lan 3),
  rotated toy limits first_draw lan_token lan accounts,
)
refresh_rotates_example =
    refresh_rotates toy limits first_draw 900 accounts lan_token lan refl refl (omega arith) refl
      refl

-- Lan rotates again, someone else registers, and Lan logs out and in.
abbrev in_between : List Request
in_between =
    Request.refreshes second_draw (refresh_token_of toy limits first_draw 100 3)
    ∷ Request.registers first_draw 77 5
    ∷ Request.logs_out second_draw (some 12)
    ∷ Request.logs_in second_draw 31 42
    ∷ []

refresh_replayed_example :
    let replay =
      refresh toy limits second_draw 900
        (serve_all toy limits in_between (refresh toy limits first_draw 900 accounts).1) in
    (replay.0 ≡ err Error.invalid_refresh_token) × (count_where (is_live_in 3) replay.1.tokens ≡ 0)
unfolding refresh
refresh_replayed_example =
    refresh_replayed toy limits first_draw second_draw 900 accounts lan_token
      (signed_in toy limits first_draw lan 3) in_between refl refl

refresh-logout_example :
    (refresh toy limits second_draw 900 (logout toy limits first_draw (some 900) accounts).1).0
    ≡ err Error.invalid_refresh_token
refresh-logout_example = refresh-logout toy limits first_draw second_draw 900 accounts

refresh_race_example :
    let one = finish_refresh toy limits first_draw (lan_token, lan) accounts in
    let two = finish_refresh toy limits second_draw (lan_token, lan) one.1 in
    (check_refresh toy limits first_draw 900 accounts ≡ (ok (lan_token, lan), accounts))
    × (check_refresh toy limits second_draw 900 accounts ≡ (ok (lan_token, lan), accounts))
    × (one.0 ≡ ok (signed_in toy limits first_draw lan 3))
    × (two.0 ≡ ok (signed_in toy limits second_draw lan 3))
    × (find (has_token_id 2) two.1.tokens ≡ some (token_row toy limits first_draw 100 3))
    × (find (has_token_id 3) two.1.tokens ≡ some (token_row toy limits second_draw 100 3))
refresh_race_example =
    refresh_race toy limits first_draw second_draw 900 accounts lan_token lan refl refl
      (omega arith) (omega arith) refl refl refl

-- Three wrong passwords within a minute.
abbrev three_wrong : List Attempt
three_wrong = (first_draw, 1) ∷ (second_draw, 2) ∷ (record second_draw { now = 700 }, 3) ∷ []

guesses-le-max_example : guesses toy limits 31 three_wrong accounts ≤ 2
guesses-le-max_example = guesses-le-max toy limits 500 31 three_wrong accounts (omega arith) refl (
  omega arith,
  omega arith,
  refl,
  (omega arith, omega arith, refl, (omega arith, omega arith, refl, tt)),
)

login-register_example :
    (login toy limits second_draw 32 77 (register toy limits first_draw 32 77 accounts).1).0
    ≡ ok (signed_in toy limits second_draw (new_user 2 32 7_000_077) 5)
login-register_example =
    login-register toy limits first_draw second_draw 32 77 accounts refl refl (omega arith) refl

-- Tokens below 10 are users', the others administrators'.
abbrev verify : Verifier
verify token = some (token, some (if token == 12 then Role.admin else Role.user))

guarded-admin_example :
    (guarded verify (Role.admin ∷ []) (some 12) ≡ ok (record { user_id = 12; role = Role.admin }))
    ↔ ((token : ℕ) × (some 12 ≡ some token)
        × (verify token ≡ some (12, some Role.admin))
        × (Role.admin ≡ Role.admin))
guarded-admin_example = guarded-admin verify (some 12) (record { user_id = 12; role = Role.admin })
