-- ===== src/Payments/Process.antt =====
-- PaymentService.process (payment.service.ts) and `createIntent` (payment-checkout.service.ts).
use flash_core.Common.{ℕ, Option, none, some}
use flash_core.Common.Table.{find}
use flash_core.Store.{Db, Order, OrderStatus, Action, Error, pure, throw, gets, ◌>>=◌, ◌>>◌}
use flash_core.Orders.Reads.{is_order_of}
use flash_core.Payments.Settling.{SettlePayment, settle}

pub data PaymentType : Type 0 where
  succeeded failed : PaymentType

-- Every outcome of a settlement ends the job; the branches differ in what they log.
unfoldable pub process : ℕ → PaymentType → SettlePayment → Action Db (Unit {0})
unfolding settle
process now PaymentType.failed input = pure tt
process now PaymentType.succeeded input = settle now input >> pure tt

-- The intent's id is generated; `intent` stands for it.
unfoldable pub intent_for : ℕ → Option Order → Action Db (ℕ × ℕ)
intent_for intent none = throw Error.order_not_found
intent_for intent (some o) = elim o.status [
  | OrderStatus.pending ↦ pure (intent, o.total_vnd)
  | OrderStatus.paid ↦ throw Error.order_not_payable
  | OrderStatus.cancelled ↦ throw Error.order_not_payable
]

unfoldable pub create_intent : ℕ → ℕ → ℕ → Action Db (ℕ × ℕ)
unfolding intent_for
create_intent intent id user = do
  order ← gets λ db. find (is_order_of id user) db.orders
  intent_for intent order
