-- ===== src/Payments/Settling.antt =====
-- `OrderPaymentService.settle` with `markPaid`, `findOrderForPayment` and `createRefundRequest` of
-- order.repository.ts.
use flash_core.Common.{
  ℕ, Bool, false, Option, none, some, [], ◌∷◌, ◌++◌, ◌&&◌, ltb, ◌==◌, if◌then◌else◌,
}
use flash_core.Common.Table.{find, exists_row, count_where, update_where}
use flash_core.Store.{
  Db, Order, OrderStatus, is_pending, RefundReason, RefundRequest, Consumer, Action, Error, pure,
  throw_if, gets, modify, ◌>>=◌, ◌>>◌,
}
use flash_core.Orders.{has_order_id}
use flash_core.Payments.Once.{run_once_in_transaction}

pub data Settlement : Type 0 where
  now_paid already_handled unknown_order : Settlement
  refund_required : RefundReason → Settlement

pub record SettlePayment : Type 0 where
  pub event_id : ℕ
  pub order_id : ℕ
  pub payment_intent_id : ℕ
  pub amount_vnd : ℕ

abbrev pub has_intent : ℕ → Order → Bool
has_intent intent o = elim o.payment_intent_id [ none ↦ false | some i ↦ i == intent ]

abbrev pub payable : ℕ → Order → Bool
payable id o = has_order_id id o && is_pending o.status

abbrev pub pay_row : ℕ → Order → Order
pay_row intent o = record o { status = OrderStatus.paid; payment_intent_id = some intent }

-- The raw UPDATE: a payment intent that another order carries breaks the statement, and a raw
-- statement does not report that as P2002.
unfoldable pub mark_paid : ℕ → ℕ → Action Db Bool
mark_paid id intent = do
  updated ← gets λ db. count_where (payable id) db.orders
  carried ← gets λ db. exists_row (has_intent intent) db.orders
  throw_if (ltb 0 updated && carried) Error.query_failed
  modify λ db. record db { orders = update_where (payable id) (pay_row intent) db.orders }
  pure (ltb 0 updated)

-- `refundRequest.create`: the CHECK on the amount, then the unique payment intent.
unfoldable pub create_refund_request : RefundRequest → Action Db (Unit {0})
create_refund_request request = do
  throw_if (request.amount_vnd == 0) Error.query_failed
  taken ← gets λ db. exists_row (λ r. r.payment_intent_id == request.payment_intent_id) db.refunds
  throw_if taken Error.unique_violation
  modify λ db. record db { refunds = db.refunds ++ (request ∷ []) }

abbrev pub refund_of : SettlePayment → RefundReason → RefundRequest
refund_of input reason = record {
  order_id = input.order_id;
  payment_intent_id = input.payment_intent_id;
  amount_vnd = input.amount_vnd;
  reason = reason;
}

unfoldable pub refund : SettlePayment → RefundReason → Action Db Settlement
unfolding create_refund_request
refund input reason =
    create_refund_request (refund_of input reason) >> pure (Settlement.refund_required reason)

unfoldable pub settle_status : SettlePayment → OrderStatus → ℕ → Action Db Settlement
unfolding refund mark_paid
settle_status input OrderStatus.cancelled id = refund input RefundReason.order_already_cancelled
settle_status input OrderStatus.pending id = do
  paid ← mark_paid id input.payment_intent_id
  pure (if paid then Settlement.now_paid else Settlement.already_handled)
settle_status input OrderStatus.paid id = do
  paid ← mark_paid id input.payment_intent_id
  pure (if paid then Settlement.now_paid else Settlement.already_handled)

-- The body of the transaction.
unfoldable pub settle_order : SettlePayment → Option Order → Action Db Settlement
unfolding settle_status refund
settle_order input none = pure Settlement.unknown_order
settle_order input (some o) =
    if o.total_vnd == input.amount_vnd
    then settle_status input o.status o.id
    else refund input RefundReason.amount_mismatch

unfoldable pub find_order_for_payment : ℕ → Action Db (Option Order)
find_order_for_payment id = gets λ db. find (has_order_id id) db.orders

unfoldable pub settle_found : SettlePayment → Action Db Settlement
unfolding settle_order find_order_for_payment
settle_found input = do order ← find_order_for_payment input.order_id; settle_order input order

unfoldable pub settle : ℕ → SettlePayment → Action Db Settlement
unfolding run_once_in_transaction
settle now input = do
  outcome ←
      run_once_in_transaction now input.event_id Consumer.order_payment Settlement.already_handled
        (settle_found input)
  pure (if outcome.0 then outcome.1 else Settlement.already_handled)
