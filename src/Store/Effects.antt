-- ===== src/Store/Effects.antt =====
-- A call: it reads and writes a state, and ends in a value or throws. What was written before a
-- throw stays written; only `transaction` takes it back.
use flash_core.Common.{Bool, true, false}

-- The domain errors, by their codes, and what the database and the runtime throw:
-- `unique_violation` is Prisma's P2002, `conflict` is PostgreSQL's 40001 or 40P01, and
-- `query_failed` is any other failure of a statement.
pub data Error : Type 0 where
  sku_not_found out_of_stock per_user_limit_reached sale_not_open : Error
  order_not_found order_not_cancellable order_not_payable : Error
  sale_event_slug_taken sale_event_not_found sale_event_already_published
        not_enough_stock_to_allocate :
      Error
  invalid_signature invalid_refresh_token invalid_credentials : Error
  too_many_login_attempts email_already_exists : Error
  permanent_mail_error mail_failed : Error
  unauthenticated invalid_access_token forbidden_role too_many_requests : Error
  csrf_token_invalid invalid_cursor validation_failed : Error
  product_not_found slug_already_exists sku_already_exists unrecoverable : Error
  unique_violation conflict query_failed internal : Error

pub data Result {ℓ} (A : Type ℓ) : Type ℓ where
  ok : A → Result A
  err : Error → Result A

abbrev pub Action : Type 0 → Type 0 → Type 0
Action S A = S → Result A × S

module _ {S A : Type 0} where
  abbrev pub pure : A → Action S A
  pure a s = (ok a, s)

  abbrev pub throw : Error → Action S A
  throw e s = (err e, s)

infixl 5 ◌>>=◌ ◌>>◌
abbrev pub ◌>>=◌ : {S A B : Type 0} → Action S A → (A → Action S B) → Action S B
◌>>=◌ m f s = let (r, s') = m s in elim r [ ok a ↦ f a s' | err e ↦ (err e, s') ]

abbrev pub ◌>>◌ : {S A B : Type 0} → Action S A → Action S B → Action S B
m >> k = m >>= λ _. k

abbrev pub gets : {S A : Type 0} → (S → A) → Action S A
gets f s = (ok (f s), s)

abbrev pub modify : {S : Type 0} → (S → S) → Action S (Unit {0})
modify f s = (ok tt, f s)

-- `if (c) throw e`
abbrev pub throw_if : {S : Type 0} → Bool → Error → Action S (Unit {0})
throw_if true e = throw e
throw_if false e = pure tt

-- `this.prisma.$transaction`: a throw rolls back what the body wrote.
abbrev pub transaction : {S A : Type 0} → Action S A → Action S A
transaction m s = let (r, s') = m s in elim r [ ok a ↦ (ok a, s') | err e ↦ (err e, s) ]

-- `try { ... } catch (error) { ... }`
abbrev pub catch : {S A : Type 0} → Action S A → (Error → Action S A) → Action S A
catch m h s = let (r, s') = m s in elim r [ ok a ↦ (ok a, s') | err e ↦ h e s' ]

-- `isUniqueViolation`: only the code P2002 counts.
abbrev pub is_unique_violation : Error → Bool
is_unique_violation Error.unique_violation = true
is_unique_violation _ = false
