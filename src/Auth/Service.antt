-- ===== src/Auth/Service.antt =====
-- AuthService (auth.service.ts). Log lines are left out.
use mathlib.Core.Option
use flash_core.Common.{
  ℕ, ◌+◌, ◌*◌, Bool, true, false, Option, none, some, leb, is_some, if◌then◌else◌,
}
use flash_core.Store.{Action, Error, pure, throw, ◌>>=◌, ◌>>◌}
use flash_core.Auth.Rows.{User, RefreshToken, Accounts, Crypto, Limits, Draw}
use flash_core.Auth.Repository.{
  find_user_by_email, find_user_by_id, create_user, find_refresh_token_by_hash,
  create_refresh_token, revoke_token, rotate_refresh_token, revoke_family,
}
use flash_core.Auth.Counters.{assert_not_rate_limited, record_failed_login, reset}

pub record PublicUser : Type 0 where
  pub id : ℕ
  pub email : ℕ

pub record TokenPair : Type 0 where
  pub access_token : ℕ
  pub refresh_token : ℕ

pub record AuthResult : Type 0 where
  pub account : PublicUser
  pub tokens : TokenPair

abbrev pub public_user : User → PublicUser
public_user u = record { id = u.id; email = u.email }

module _ (crypto : Crypto) (limits : Limits) where
  unfoldable pub register_with : Draw → ℕ → ℕ → Option User → Action Accounts PublicUser
  unfolding create_user
  register_with draw email password (some u) = throw Error.email_already_exists
  register_with draw email password none = do
    created ← create_user draw.row_id email (crypto.hash_password password draw.salt)
    pure (public_user created)

  unfoldable pub register : Draw → ℕ → ℕ → Action Accounts PublicUser
  unfolding register_with find_user_by_email
  register draw email password = do
    existing ← find_user_by_email email
    register_with draw email password existing

  -- `buildTokenPair`: the two signed tokens and the row of the second.
  abbrev pub refresh_token_of : Draw → ℕ → ℕ → ℕ
  refresh_token_of draw user family = crypto.sign_refresh user family draw.jti draw.now

  abbrev pub token_row : Draw → ℕ → ℕ → RefreshToken
  token_row draw user family = record {
    id = draw.row_id;
    user_id = user;
    token_hash = crypto.hash_token (refresh_token_of draw user family);
    family_id = family;
    expires_at = draw.now + limits.refresh_token_ttl * 1000;
    revoked_at = none;
  }

  abbrev pub built_pair : Draw → User → ℕ → TokenPair
  built_pair draw u family = record {
    access_token = crypto.sign_access u.id u.role draw.now;
    refresh_token = refresh_token_of draw u.id family;
  }

  abbrev pub signed_in : Draw → User → ℕ → AuthResult
  signed_in draw u family = record { account = public_user u; tokens = built_pair draw u family }

  -- `argon2.verify` runs also where there is no user, on DUMMY_HASH.
  abbrev pub password_matches : Option User → ℕ → Bool
  password_matches none password = crypto.verify_password crypto.dummy_hash password
  password_matches (some u) password = crypto.verify_password u.password_hash password

  unfoldable pub refuse_login : Draw → ℕ → Action Accounts AuthResult
  unfolding record_failed_login
  refuse_login draw email =
      record_failed_login limits draw.now email >> throw Error.invalid_credentials

  unfoldable pub login_with : Draw → ℕ → Option User → Bool → Action Accounts AuthResult
  unfolding refuse_login reset create_refresh_token
  login_with draw email none matches = refuse_login draw email
  login_with draw email (some u) false = refuse_login draw email
  login_with draw email (some u) true = do
    reset email
    create_refresh_token (token_row draw u.id draw.family_id)
    pure (signed_in draw u draw.family_id)

  unfoldable pub login : Draw → ℕ → ℕ → Action Accounts AuthResult
  unfolding login_with assert_not_rate_limited find_user_by_email
  login draw email password = do
    assert_not_rate_limited limits draw.now email
    u ← find_user_by_email email
    login_with draw email u (password_matches u password)

  -- A revoked token that is used again takes its whole family down.
  unfoldable pub refuse_reuse : Draw → RefreshToken → Action Accounts (RefreshToken × User)
  unfolding revoke_family
  refuse_reuse draw stored =
      revoke_family draw.now stored.family_id >> throw Error.invalid_refresh_token

  unfoldable pub owner_of : RefreshToken → Option User → Action Accounts (RefreshToken × User)
  owner_of stored none = throw Error.invalid_refresh_token
  owner_of stored (some u) = pure (stored, u)

  unfoldable pub check_stored : Draw → Option RefreshToken → Action Accounts (RefreshToken × User)
  unfolding refuse_reuse owner_of find_user_by_id
  check_stored draw none = throw Error.invalid_refresh_token
  check_stored draw (some stored) =
      if is_some stored.revoked_at
      then refuse_reuse draw stored
      else if leb stored.expires_at draw.now
      then throw Error.invalid_refresh_token
      else (find_user_by_id stored.user_id >>= owner_of stored)

  -- `refresh` up to the two reads that it decides by.
  unfoldable pub check_refresh : Draw → ℕ → Action Accounts (RefreshToken × User)
  unfolding check_stored find_refresh_token_by_hash
  check_refresh draw raw = do
    stored ← find_refresh_token_by_hash (crypto.hash_token raw)
    check_stored draw stored

  -- The rest of `refresh`: the rotation.
  unfoldable pub finish_refresh : Draw → RefreshToken × User → Action Accounts AuthResult
  unfolding rotate_refresh_token
  finish_refresh draw (stored, u) = do
    rotate_refresh_token draw.now stored.id (token_row draw u.id stored.family_id)
    pure (signed_in draw u stored.family_id)

  unfoldable pub refresh : Draw → ℕ → Action Accounts AuthResult
  unfolding check_refresh finish_refresh
  refresh draw raw = check_refresh draw raw >>= finish_refresh draw

  unfoldable pub logout_stored : Draw → Option RefreshToken → Action Accounts (Unit {0})
  unfolding revoke_token
  logout_stored draw none = pure tt
  logout_stored draw (some stored) =
      if is_some stored.revoked_at then pure tt else revoke_token draw.now stored.id

  unfoldable pub logout : Draw → Option ℕ → Action Accounts (Unit {0})
  unfolding logout_stored find_refresh_token_by_hash
  logout draw none = pure tt
  logout draw (some raw) = do
    stored ← find_refresh_token_by_hash (crypto.hash_token raw)
    logout_stored draw stored

  unfoldable pub find_public_user : ℕ → Action Accounts (Option PublicUser)
  unfolding find_user_by_id
  find_public_user id = do u ← find_user_by_id id; pure (Option.map public_user u)
