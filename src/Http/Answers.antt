-- ===== src/Http/Answers.antt =====
-- What the exception filter answers and how loud it logs, for every thrown value.
use flash_core.Common.{ℕ, ◌≤◌, ◌≡◌, ◌↔◌, refl, Bool, true, false, arith, if◌then◌else◌}
use flash_core.Http.Errors.{
  AuthError, SaleEventError, DomainError, declared, Level, level_of, log_level,
}
use flash_core.Http.Filter.{Exception, internal_answer, describe, level, catch_exception}

-- The class whose status is 5xx by its own declaration.
abbrev pub is_not_ready : DomainError → Bool
is_not_ready (DomainError.not_ready checks) = true
is_not_ready _ = false

-- A value that carries a status of its own: an exception of ours or of the framework.
abbrev pub has_own_status : Exception → Bool
has_own_status (Exception.domain e) = is_not_ready e
has_own_status (Exception.http status payload message) = true
has_own_status (Exception.object is_large has_status carried) = false
has_own_status (Exception.primitive value) = false

abbrev pub is_quiet : Exception → Bool
is_quiet (Exception.domain e) = is_not_ready e
is_quiet _ = false

declared-client : (e : DomainError) → is_not_ready e ≡ false → (declared e).http_status ≤ 499
unfolding declared
declared-client (DomainError.auth AuthError.invalid_credentials) h = omega arith
declared-client (DomainError.auth AuthError.email_already_exists) h = omega arith
declared-client (DomainError.auth AuthError.invalid_refresh_token) h = omega arith
declared-client (DomainError.auth (AuthError.too_many_login_attempts seconds)) h = omega arith
declared-client (DomainError.order e) h = ground arith
declared-client (DomainError.payment e) h = ground arith
declared-client (DomainError.product e) h = ground arith
declared-client (DomainError.sale_event SaleEventError.not_found) h = omega arith
declared-client (DomainError.sale_event SaleEventError.already_published) h = omega arith
declared-client (DomainError.sale_event (SaleEventError.slug_taken slug)) h = omega arith
declared-client (DomainError.sale_event (SaleEventError.not_enough_stock_to_allocate k)) h =
    omega arith
declared-client (DomainError.not_ready checks) h = absurd (cc)
declared-client DomainError.invalid_cursor h = omega arith
declared-client DomainError.csrf_token_invalid h = omega arith
declared-client (DomainError.too_many_requests seconds) h = omega arith

-- If what is thrown is neither the framework's exception nor says that the instance is not ready,
-- an answer of 500 or above is the one constant answer, which shows nothing of the exception.
pub catch_exception-internal :
    (id : ℕ) (e : Exception)
    → has_own_status e ≡ false
    → 500 ≤ (catch_exception id e).answer.status
    → (catch_exception id e).answer ≡ internal_answer
unfolding catch_exception describe
catch_exception-internal id (Exception.domain e) own high =
    absurd (omega (arith, declared-client e own, high))
catch_exception-internal id (Exception.http status payload message) own high = absurd (cc)
catch_exception-internal id (Exception.object is_large has_status carried) own high = ground arith
catch_exception-internal id (Exception.primitive value) own high = refl

level_of-error : (status : ℕ) → (level_of status ≡ Level.error) ↔ (500 ≤ status)
unfolding level_of
level_of-error status = ground arith

log_level_lem :
    (e : DomainError)
    → log_level e ≡ (if is_not_ready e then Level.warn else level_of (declared e).http_status)
unfolding log_level
log_level_lem (DomainError.auth e) = refl
log_level_lem (DomainError.order e) = refl
log_level_lem (DomainError.payment e) = refl
log_level_lem (DomainError.product e) = refl
log_level_lem (DomainError.sale_event e) = refl
log_level_lem (DomainError.not_ready checks) = refl
log_level_lem DomainError.invalid_cursor = refl
log_level_lem DomainError.csrf_token_invalid = refl
log_level_lem (DomainError.too_many_requests seconds) = refl

-- The log line is an error exactly for an answer of 500 or above, except when the instance is not
-- ready.
pub catch_exception_logged :
    (id : ℕ) (e : Exception)
    → ((catch_exception id e).logged ≡ Level.error)
      ↔ ((500 ≤ (catch_exception id e).answer.status) × (is_quiet e ≡ false))
unfolding catch_exception level describe
catch_exception_logged id (Exception.domain e) =
    ground (arith, log_level_lem e, level_of-error (declared e).http_status)
catch_exception_logged id (Exception.http status payload message) =
    ground (arith, level_of-error (describe (Exception.http status payload message)).status)
catch_exception_logged id (Exception.object is_large has_status carried) =
    ground (arith, level_of-error (describe (Exception.object is_large has_status carried)).status)
catch_exception_logged id (Exception.primitive value) =
    ground (arith, level_of-error (describe (Exception.primitive value)).status)
