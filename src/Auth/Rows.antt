-- ===== src/Auth/Rows.antt =====
-- The tables `users` and `refresh_tokens`, the counters in Redis, and what is not in the repository:
-- argon2, SHA-256 and JWT. Texts (emails, passwords, tokens) are numbers that are only compared.
use flash_core.Common.{ℕ, Bool, Option, List}

pub data Role : Type 0 where
  user admin : Role

pub record User : Type 0 where
  pub id : ℕ
  pub email : ℕ
  pub password_hash : ℕ
  pub role : Role

pub record RefreshToken : Type 0 where
  pub id : ℕ
  pub user_id : ℕ
  pub token_hash : ℕ
  pub family_id : ℕ
  pub expires_at : ℕ
  pub revoked_at : Option ℕ

-- A key with a time to live.
pub record Counter : Type 0 where
  pub count : ℕ
  pub dies_at : ℕ

-- `attempts` holds the keys `ratelimit:login:<email>`.
pub record Accounts : Type 0 where
  pub users : List User
  pub tokens : List RefreshToken
  pub attempts : ℕ → Option Counter

-- `argon2.hash` with a salt, `argon2.verify`, SHA-256 of a token, and the two signed tokens.
pub record Crypto : Type 0 where
  pub hash_password : ℕ → ℕ → ℕ
  pub verify_password : ℕ → ℕ → Bool
  pub hash_token : ℕ → ℕ
  pub sign_access : ℕ → Role → ℕ → ℕ
  pub sign_refresh : ℕ → ℕ → ℕ → ℕ → ℕ
  pub dummy_hash : ℕ

-- The environment variables, in seconds.
pub record Limits : Type 0 where
  pub refresh_token_ttl : ℕ
  pub login_rate_limit_max : ℕ
  pub login_rate_limit_window : ℕ

-- What one call draws: the id of a new row, `randomUUID()` for the family and the `jti`, a salt, and
-- the clock in milliseconds.
pub record Draw : Type 0 where
  pub row_id : ℕ
  pub family_id : ℕ
  pub jti : ℕ
  pub salt : ℕ
  pub now : ℕ
