-- ===== src/Auth/Repository.antt =====
-- AuthRepository (auth.repository.ts), one function for each statement.
use mathlib.Core.Option
use flash_core.Common.{ℕ, Bool, Option, some, [], ◌∷◌, ◌++◌, ◌==◌, ◌&&◌, ◌||◌, not, is_none}
use flash_core.Common.Table.{find, exists_row, update_where, count_where}
use flash_core.Store.{Action, Error, pure, throw_if, gets, modify, transaction, ◌>>=◌, ◌>>◌}
use flash_core.Auth.Rows.{Role, User, RefreshToken, Accounts}

abbrev pub has_email : ℕ → User → Bool
has_email email u = u.email == email

abbrev pub has_user_id : ℕ → User → Bool
has_user_id id u = u.id == id

abbrev pub has_hash : ℕ → RefreshToken → Bool
has_hash hash t = t.token_hash == hash

abbrev pub has_token_id : ℕ → RefreshToken → Bool
has_token_id id t = t.id == id

-- A token of the family that is not revoked.
abbrev pub is_live_in : ℕ → RefreshToken → Bool
is_live_in family t = t.family_id == family && is_none t.revoked_at

abbrev pub revoke_row : ℕ → RefreshToken → RefreshToken
revoke_row now t = record t { revoked_at = some now }

unfoldable pub find_user_by_email : ℕ → Action Accounts (Option User)
find_user_by_email email = gets λ s. find (has_email email) s.users

unfoldable pub find_user_by_id : ℕ → Action Accounts (Option User)
find_user_by_id id = gets λ s. find (has_user_id id) s.users

unfoldable pub find_email_by_id : ℕ → Action Accounts (Option ℕ)
find_email_by_id id = gets λ s. Option.map (λ u. u.email) (find (has_user_id id) s.users)

abbrev pub new_user : ℕ → ℕ → ℕ → User
new_user id email hash = record { id = id; email = email; password_hash = hash; role = Role.user }

-- The email is unique; so is the id.
unfoldable pub create_user : ℕ → ℕ → ℕ → Action Accounts User
create_user id email hash = do
  taken ← gets λ s. exists_row (λ u. has_user_id id u || has_email email u) s.users
  throw_if taken Error.unique_violation
  modify λ s. record s { users = s.users ++ (new_user id email hash ∷ []) }
  pure (new_user id email hash)

unfoldable pub find_refresh_token_by_hash : ℕ → Action Accounts (Option RefreshToken)
find_refresh_token_by_hash hash = gets λ s. find (has_hash hash) s.tokens

unfoldable pub create_refresh_token : RefreshToken → Action Accounts (Unit {0})
create_refresh_token token = do
  taken ←
      gets λ s. exists_row (λ t. has_token_id token.id t || has_hash token.token_hash t) s.tokens
  throw_if taken Error.unique_violation
  modify λ s. record s { tokens = s.tokens ++ (token ∷ []) }

-- Prisma's `update` by the id: it throws if there is no such row.
unfoldable pub revoke_token : ℕ → ℕ → Action Accounts (Unit {0})
revoke_token now id = do
  there ← gets λ s. exists_row (has_token_id id) s.tokens
  throw_if (not there) Error.query_failed
  modify λ s. record s { tokens = update_where (has_token_id id) (revoke_row now) s.tokens }

-- The old token is revoked and the new one inserted, together.
unfoldable pub rotate_refresh_token : ℕ → ℕ → RefreshToken → Action Accounts (Unit {0})
unfolding revoke_token create_refresh_token
rotate_refresh_token now old token = transaction do revoke_token now old; create_refresh_token token

unfoldable pub revoke_family : ℕ → ℕ → Action Accounts ℕ
revoke_family now family = do
  revoked ← gets λ s. count_where (is_live_in family) s.tokens
  modify λ s. record s { tokens = update_where (is_live_in family) (revoke_row now) s.tokens }
  pure revoked
