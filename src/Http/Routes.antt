-- ===== src/Http/Routes.antt =====
-- The handlers of order.controller.ts and `webhook` of payment.controller.ts behind their guard and
-- their pipe. A body is what its schema makes of it, or nothing; a text is a number to the store.
use flash_core.Common.{
  ℕ, Bool, true, false, Option, none, some, List, [], ◌∷◌, ◌++◌, not, if◌then◌else◌,
}
use flash_core.Store.{
  on_db, World, Order, Action, Result, ok, err, Error, pure, throw, gets, modify, throw_if, ◌>>=◌,
  ◌>>◌,
}
use flash_core.Inventory.{Reserver}
use flash_core.Orders.{
  Stamp, Setting, CreateOrderDto, Placement, place_order, OrderView, get_my_order, cancel_my_order,
}
use flash_core.Payments.{SettlePayment}
use flash_core.Orders.History.{list_my_orders}
use flash_core.Pages.{Codec, Page}
use flash_core.Payments.Process.{PaymentType, create_intent}
use flash_core.Payments.Signature.{Text, SignatureFailure, Signed, trim, verify_signature}
use flash_core.Http.Errors.{Code, DomainError, AuthError, OrderError, PaymentError}
use flash_core.Http.Filter.{Payload, Exception, catch_exception}
use flash_core.Http.Probes.{Answer}

-- The framework's exception with a code of ours.
abbrev pub refused : ℕ → Code → Exception
refused status code = Exception.http status (Payload.fields (some code) (some 0) none) 0

-- What the order, payment and auth services throw, as the filter sees it; a failing statement is an object of the database
-- client without a numeric status.
abbrev pub exception_of : Error → Exception
exception_of Error.sku_not_found = Exception.domain (DomainError.order OrderError.sku_not_found)
exception_of Error.out_of_stock = Exception.domain (DomainError.order OrderError.out_of_stock)
exception_of Error.per_user_limit_reached =
    Exception.domain (DomainError.order OrderError.per_user_limit_reached)
exception_of Error.sale_not_open = Exception.domain (DomainError.order OrderError.sale_not_open)
exception_of Error.order_not_found = Exception.domain (DomainError.order OrderError.order_not_found)
exception_of Error.order_not_cancellable =
    Exception.domain (DomainError.order OrderError.order_not_cancellable)
exception_of Error.order_not_payable =
    Exception.domain (DomainError.payment PaymentError.order_not_payable)
exception_of Error.invalid_signature =
    Exception.domain (DomainError.payment PaymentError.invalid_signature)
exception_of Error.invalid_credentials =
    Exception.domain (DomainError.auth AuthError.invalid_credentials)
exception_of Error.email_already_exists =
    Exception.domain (DomainError.auth AuthError.email_already_exists)
exception_of Error.invalid_refresh_token =
    Exception.domain (DomainError.auth AuthError.invalid_refresh_token)
exception_of Error.unauthenticated = refused 401 Code.unauthenticated
exception_of Error.invalid_access_token = refused 401 Code.invalid_access_token
exception_of Error.forbidden_role = refused 403 Code.forbidden_role
exception_of Error.validation_failed =
    Exception.http 400 (Payload.fields (some Code.validation_failed) (some 0) (some 0)) 0
exception_of Error.csrf_token_invalid = Exception.domain DomainError.csrf_token_invalid
exception_of Error.invalid_cursor = Exception.domain DomainError.invalid_cursor
exception_of _ = Exception.object false false 0

abbrev pub answered : {A : Type 0} → ℕ → ℕ → Result A → Answer A
answered id status (ok a) = Answer.success status a
answered id status (err e) = Answer.failure (catch_exception id (exception_of e))

-- `ZodValidationPipe.transform`: what `schema.parse` gives, or VALIDATION_FAILED.
unfoldable pub transform : {S A : Type 0} → Option A → Action S A
transform none = throw Error.validation_failed
transform (some value) = pure value

-- `POST /orders` after the guard: the pipe, the header, the service, the status.
abbrev pub is_blank : Text → Bool
is_blank [] = true
is_blank (c ∷ s) = false

abbrev pub placed_status : Placement → ℕ
placed_status p = if p.created then 201 else 200

module _ (id : ℕ) (key_of : Text → ℕ) (stamp : Stamp) (setting : Setting)
    (reserver : Reserver) where
  unfoldable pub place_trimmed : ℕ → CreateOrderDto → Text → World → Answer Order × World
  unfolding place_order
  place_trimmed user dto key w =
      if is_blank key
      then (
        Answer.failure (
            catch_exception id
              (Exception.domain (DomainError.order OrderError.idempotency_key_required))),
        w,
      )
      else (let (r, w') = place_order stamp setting reserver user (key_of key) dto w in
          elim r [
            | ok p ↦ (Answer.success (placed_status p) p.order, w')
            | err e ↦ (Answer.failure (catch_exception id (exception_of e)), w')
          ])

  -- A missing header counts as a blank one.
  unfoldable pub place_route :
      ℕ → Option Text → Option CreateOrderDto → World → Answer Order × World
  unfolding place_trimmed trim
  place_route user header none w =
      (Answer.failure (catch_exception id (exception_of Error.validation_failed)), w)
  place_route user none (some dto) w = place_trimmed user dto [] w
  place_route user (some key) (some dto) w = place_trimmed user dto (trim key) w

-- `POST /orders/:id/cancel` and `GET /orders/:id`.
unfoldable pub cancel_route : Reserver → ℕ → ℕ → List ℕ → ℕ → World → Answer OrderView × World
unfolding cancel_my_order
cancel_route reserver id now text user w =
    let (r, w') = cancel_my_order reserver now text user w in
    elim r [
      | ok c ↦ (Answer.success 200 c.order, w')
      | err e ↦ (Answer.failure (catch_exception id (exception_of e)), w')
    ]

unfoldable pub detail_route : ℕ → List ℕ → ℕ → World → Answer OrderView × World
unfolding get_my_order
detail_route id text user w = let (r, w') = get_my_order text user w in (answered id 200 r, w')

-- `GET /orders`, its query being a cursor and a limit.
unfoldable pub list_route :
    Codec → ℕ → ℕ → Option (Option Text × ℕ) → World → Answer (Page Order) × World
unfolding list_my_orders
list_route codec id user none w =
    (Answer.failure (catch_exception id (exception_of Error.validation_failed)), w)
list_route codec id user (some (cursor, limit)) w =
    let (r, w') = on_db (list_my_orders codec user cursor limit) w in (answered id 200 r, w')

-- The payment module has a class of its own for an order that is not there.
abbrev payment_exception : Error → Exception
payment_exception Error.order_not_found =
    Exception.domain (DomainError.payment PaymentError.order_not_found)
payment_exception e = exception_of e

-- `POST /payments/checkout/:orderId` for the id of a UUID, with the intent that it draws.
unfoldable pub checkout_route : ℕ → ℕ → ℕ → ℕ → World → Answer (ℕ × ℕ) × World
unfolding create_intent
checkout_route id intent order user w =
    let (r, w') = on_db (create_intent intent order user) w in
    elim r [
      | ok created ↦ (Answer.success 201 created, w')
      | err e ↦ (Answer.failure (catch_exception id (payment_exception e)), w')
    ]

-- A job `payment.process`, its correlation id left out.
pub record PaymentJob : Type 0 where
  pub type : PaymentType
  pub input : SettlePayment

-- The queue that the webhook writes, and whether Redis takes the job.
pub record Queue : Type 0 where
  pub jobs : List PaymentJob
  pub up : Bool

unfoldable pub add_job : PaymentJob → Action Queue (Unit {0})
add_job job = do
  up ← gets λ q. q.up
  throw_if (not up) Error.internal
  modify λ q. record q { jobs = q.jobs ++ (job ∷ []) }

module _ (id : ℕ) (hmac : Text → ℕ → Text → List ℕ) where
  abbrev enqueue : PaymentJob → Option SignatureFailure → Action Queue (Unit {0})
  enqueue job (some failure) = throw Error.invalid_signature
  enqueue job none = add_job job

  unfoldable pub webhook : Signed → Option PaymentJob → Action Queue (Unit {0})
  unfolding verify_signature transform add_job
  webhook input body = do job ← transform body; enqueue job (verify_signature hmac input)

  unfoldable pub webhook_route : Signed → Option PaymentJob → Queue → Answer (Unit {0}) × Queue
  unfolding webhook
  webhook_route input body q = let (r, q') = webhook input body q in (answered id 204 r, q')
