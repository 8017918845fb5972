-- ===== src/Http/Errors.antt =====
-- The subclasses of `DomainError` (src/common/errors/domain.error.ts) with their status and code.
use flash_core.Common.{ℕ, Bool, Option, none, some, leb, if◌then◌else◌}

-- The texts of `code`.
pub data Code : Type 0 where
  invalid_credentials email_already_exists invalid_refresh_token too_many_login_attempts : Code
  out_of_stock sku_not_found idempotency_key_required order_not_found : Code
  order_not_cancellable sale_not_open per_user_limit_reached : Code
  invalid_signature order_not_payable : Code
  slug_already_exists product_not_found sku_already_exists : Code
  sale_event_not_found sale_event_slug_taken not_enough_stock_to_allocate : Code
  sale_event_already_published : Code
  not_ready invalid_cursor csrf_token_invalid too_many_requests : Code
  payload_too_large http_error internal_error : Code
  unauthenticated invalid_access_token forbidden_role user_not_found validation_failed : Code

-- The results of the probes, as `/ready` reports them.
pub record Checks : Type 0 where
  pub database_up : Bool
  pub redis_up : Bool
  pub shutting_down : Bool

pub data AuthError : Type 0 where
  invalid_credentials email_already_exists invalid_refresh_token : AuthError
  too_many_login_attempts : ℕ → AuthError

pub data OrderError : Type 0 where
  out_of_stock sku_not_found idempotency_key_required order_not_found : OrderError
  order_not_cancellable sale_not_open per_user_limit_reached : OrderError

pub data PaymentError : Type 0 where
  invalid_signature order_not_payable order_not_found : PaymentError

pub data ProductError : Type 0 where
  slug_already_exists product_not_found sku_not_found sku_already_exists : ProductError

pub data SaleEventError : Type 0 where
  not_found already_published : SaleEventError
  slug_taken not_enough_stock_to_allocate : ℕ → SaleEventError

pub data DomainError : Type 0 where
  auth : AuthError → DomainError
  order : OrderError → DomainError
  payment : PaymentError → DomainError
  product : ProductError → DomainError
  sale_event : SaleEventError → DomainError
  not_ready : Checks → DomainError
  invalid_cursor csrf_token_invalid : DomainError
  too_many_requests : ℕ → DomainError

-- `httpStatus` and `code` of a class.
pub record Declared : Type 0 where
  pub http_status : ℕ
  pub code : Code

abbrev declares : ℕ → Code → Declared
declares status code = record { http_status = status; code = code }

unfoldable pub auth_declared : AuthError → Declared
auth_declared AuthError.invalid_credentials = declares 401 Code.invalid_credentials
auth_declared AuthError.email_already_exists = declares 409 Code.email_already_exists
auth_declared AuthError.invalid_refresh_token = declares 401 Code.invalid_refresh_token
auth_declared (AuthError.too_many_login_attempts seconds) =
    declares 429 Code.too_many_login_attempts

unfoldable pub order_declared : OrderError → Declared
order_declared OrderError.out_of_stock = declares 409 Code.out_of_stock
order_declared OrderError.sku_not_found = declares 404 Code.sku_not_found
order_declared OrderError.idempotency_key_required = declares 400 Code.idempotency_key_required
order_declared OrderError.order_not_found = declares 404 Code.order_not_found
order_declared OrderError.order_not_cancellable = declares 409 Code.order_not_cancellable
order_declared OrderError.sale_not_open = declares 409 Code.sale_not_open
order_declared OrderError.per_user_limit_reached = declares 409 Code.per_user_limit_reached

unfoldable pub payment_declared : PaymentError → Declared
payment_declared PaymentError.invalid_signature = declares 401 Code.invalid_signature
payment_declared PaymentError.order_not_payable = declares 409 Code.order_not_payable
payment_declared PaymentError.order_not_found = declares 404 Code.order_not_found

unfoldable pub product_declared : ProductError → Declared
product_declared ProductError.slug_already_exists = declares 409 Code.slug_already_exists
product_declared ProductError.product_not_found = declares 404 Code.product_not_found
product_declared ProductError.sku_not_found = declares 404 Code.sku_not_found
product_declared ProductError.sku_already_exists = declares 409 Code.sku_already_exists

unfoldable pub sale_event_declared : SaleEventError → Declared
sale_event_declared SaleEventError.not_found = declares 404 Code.sale_event_not_found
sale_event_declared (SaleEventError.slug_taken slug) = declares 409 Code.sale_event_slug_taken
sale_event_declared (SaleEventError.not_enough_stock_to_allocate sku) =
    declares 409 Code.not_enough_stock_to_allocate
sale_event_declared SaleEventError.already_published =
    declares 409 Code.sale_event_already_published

abbrev pub not_ready_declared : Declared
not_ready_declared = declares 503 Code.not_ready

abbrev pub invalid_cursor_declared : Declared
invalid_cursor_declared = declares 400 Code.invalid_cursor

abbrev pub csrf_token_invalid_declared : Declared
csrf_token_invalid_declared = declares 403 Code.csrf_token_invalid

abbrev pub too_many_requests_declared : Declared
too_many_requests_declared = declares 429 Code.too_many_requests

unfoldable pub declared : DomainError → Declared
unfolding auth_declared order_declared payment_declared product_declared sale_event_declared
declared (DomainError.auth e) = auth_declared e
declared (DomainError.order e) = order_declared e
declared (DomainError.payment e) = payment_declared e
declared (DomainError.product e) = product_declared e
declared (DomainError.sale_event e) = sale_event_declared e
declared (DomainError.not_ready checks) = not_ready_declared
declared DomainError.invalid_cursor = invalid_cursor_declared
declared DomainError.csrf_token_invalid = csrf_token_invalid_declared
declared (DomainError.too_many_requests seconds) = too_many_requests_declared

pub data Level : Type 0 where
  warn error : Level

-- The default of `logLevel`.
unfoldable pub level_of : ℕ → Level
level_of status = if leb 500 status then Level.error else Level.warn

-- `logLevel`, which `NotReadyError` overrides.
unfoldable pub log_level : DomainError → Level
unfolding declared level_of
log_level (DomainError.not_ready checks) = Level.warn
log_level e = level_of (declared e).http_status

-- What the constructors pass as `details`.
pub data Details : Type 0 where
  retry_after : ℕ → Details
  sku : ℕ → Details
  checks : Checks → Details

unfoldable pub details : DomainError → Option Details
details (DomainError.auth (AuthError.too_many_login_attempts seconds)) =
    some (Details.retry_after seconds)
details (DomainError.sale_event (SaleEventError.not_enough_stock_to_allocate sku_id)) =
    some (Details.sku sku_id)
details (DomainError.not_ready report) = some (Details.checks report)
details (DomainError.too_many_requests seconds) = some (Details.retry_after seconds)
details _ = none
