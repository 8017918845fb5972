-- ===== src/Payments/Laws.antt =====
-- What settling a payment does to its order, once and again.
use flash_core.Common.{
  ℕ, ◌≤◌, ◌≡◌, ◌≢◌, ◌⊎◌, refl, ap, ◌∙◌, sym, inl, inr, Bool, true, false, Option, none, some, List,
  [], ◌∷◌, ◌++◌, ◌==◌, if◌then◌else◌, arith, Bool-cases, ==_refl,
}
use flash_core.Common.Table.{
  find, exists_row, update_where, count_where, find-append, find-update_where, find-holds, find-and,
  find-none_count, find-some_count, update_where_absent,
}
use flash_core.Store.{
  Db, Order, OrderStatus, RefundReason, Consumer, ProcessedEvent, is_pending, Result, ok, err,
  is_unique_violation,
}
use flash_core.Orders.{has_order_id}
use flash_core.Payments.Once.{is_mark}
use flash_core.Payments.Settling.{
  Settlement, SettlePayment, has_intent, payable, pay_row, mark_paid, refund_of, refund,
  settle_status, settle_order, settle_found, settle,
}

-- The mark of the event that a settlement leaves.
abbrev pub mark_of : ℕ → SettlePayment → ProcessedEvent
mark_of now input = record {
  event_id = input.event_id;
  consumer = Consumer.order_payment;
  processed_at = now;
}

abbrev pub is_marked : SettlePayment → Db → Bool
is_marked input db = exists_row (is_mark input.event_id Consumer.order_payment) db.processed

abbrev pub with_mark : ℕ → SettlePayment → Db → Db
with_mark now input db = record db { processed = db.processed ++ (mark_of now input ∷ []) }

-- How the transaction of a new event ends: a throw takes the mark back with the rest.
abbrev pub ended : Db → Result Settlement × Db → Result Settlement × Db
ended db (ok s, d) = (ok s, d)
ended db (err e, d) =
    if is_unique_violation e then (ok Settlement.already_handled, db) else (err e, db)

pub settle_unmarked :
    (now : ℕ) (input : SettlePayment) (db : Db)
    → is_marked input db ≡ false
    → settle now input db ≡ ended db (settle_found input (with_mark now input db))
unfolding settle
settle_unmarked now input db new = ground arith

pub settle_marked :
    (now : ℕ) (input : SettlePayment) (db : Db)
    → is_marked input db ≡ true
    → settle now input db ≡ (ok Settlement.already_handled, db)
unfolding settle
settle_marked now input db old = ground arith

-- The work writes no marks.
settle_found-marks :
    (input : SettlePayment) (db : Db) → (settle_found input db).1.processed ≡ db.processed
unfolding settle_found
settle_found-marks input db = ground arith

marked_after :
    (now : ℕ) (input : SettlePayment) (db : Db) → is_marked input (with_mark now input db) ≡ true
marked_after now input db = ground (
  arith,
  find-append (is_mark input.event_id Consumer.order_payment) db.processed (mark_of now input ∷ []),
  ==_refl input.event_id,
)

-- Nor does it read them.
settle_found-frame :
    (input : SettlePayment) (db : Db) (marks : List ProcessedEvent)
    → (settle_found input (record db { processed = marks })).0 ≡ (settle_found input db).0
unfolding settle_found
settle_found-frame input db marks = ground arith

result_any_time :
    (now later : ℕ) (input : SettlePayment) (db : Db)
    → (settle_found input (with_mark later input db)).0
      ≡ (settle_found input (with_mark now input db)).0
result_any_time now later input db =
    settle_found-frame input db _ ∙ sym (settle_found-frame input db _)

marked-same :
    (input : SettlePayment) (db d : Db)
    → d.processed ≡ db.processed
    → is_marked input db ≡ true
    → is_marked input d ≡ true
marked-same input db d e h = rw e h

-- The first delivery's end, and the second delivery after it.
again_after :
    (now later : ℕ) (input : SettlePayment) (db : Db) (s : Settlement)
    (res : Result Settlement × Db)
    → is_marked input db ≡ false
    → settle_found input (with_mark now input db) ≡ res
    → (ended db res).0 ≡ ok s
    → settle later input (ended db res).1 ≡ (ok Settlement.already_handled, (ended db res).1)
again_after now later input db s (ok t, d) new e first = settle_marked later input d (
    marked-same input (with_mark now input db) d
      (rw (sym (ap (λ (r : Result Settlement × Db). r.1.processed) e))
        (settle_found-marks input (with_mark now input db)))
      (marked_after now input db))
again_after now later input db s (err x, d) new e first =
    elim (Bool-cases (is_unique_violation x)) [
      | inl twice ↦
          rw twice
            (ground (arith, settle_unmarked later input db new, result_any_time now later input db))
      | inr other ↦ absurd (cc (rw other at first))
    ]

-- The same event again: whatever the first delivery of it came to, unless it threw, a later
-- delivery is reported as handled already and changes nothing.
pub settle_again :
    (now later : ℕ) (input : SettlePayment) (db : Db) (s : Settlement)
    → (settle now input db).0 ≡ ok s
    → settle later input (settle now input db).1
      ≡ (ok Settlement.already_handled, (settle now input db).1)
settle_again now later input db s first = elim (Bool-cases (is_marked input db)) [
  | inl old ↦ rw (settle_marked now input db old) (settle_marked later input db old)
  | inr new ↦ rw (settle_unmarked now input db new) (
      again_after now later input db s (settle_found input (with_mark now input db)) new refl
        (rw (settle_unmarked now input db new) at first))
]

-- The first delivery of a payment event in the full amount, for an order that is paid already, by
-- whatever payment intent, is reported as handled: nothing but the mark is written, so no refund
-- is recorded for it.
pub settle_paid_again :
    (now : ℕ) (input : SettlePayment) (db : Db) (o : Order)
    → is_marked input db ≡ false
    → count_where (has_order_id input.order_id) db.orders ≤ 1
    → find (has_order_id input.order_id) db.orders ≡ some o
    → o.status ≡ OrderStatus.paid
    → o.total_vnd ≡ input.amount_vnd
    → settle now input db ≡ (ok Settlement.already_handled, with_mark now input db)
unfolding settle_found
settle_paid_again now input db o new unique found paid exact = ground (
  arith,
  settle_unmarked now input db new,
  find-holds (has_order_id input.order_id) db.orders o found,
  find-and (has_order_id input.order_id) (λ r. is_pending r.status) db.orders,
  find-none_count (payable input.order_id) db.orders,
  update_where_absent (payable input.order_id) (pay_row input.payment_intent_id) db.orders,
)

module _ (input : SettlePayment) (j : ℕ) (o : Order) (gone : o.status ≡ OrderStatus.cancelled) where
  abbrev Stays : Db → Type 0
  Stays db = find (has_order_id j) db.orders ≡ some o

  mark_paid-Stays : (id intent : ℕ) (db : Db) → Stays db → Stays (mark_paid id intent db).1
  unfolding mark_paid
  mark_paid-Stays id intent db found = ground (
    arith,
    find-update_where (payable id) (has_order_id j) (pay_row intent) (λ x. refl) db.orders,
  )

  refund-Stays : (reason : RefundReason) (db : Db) → Stays db → Stays (refund input reason db).1
  unfolding refund
  refund-Stays reason db found = ground arith

  settle_status-Stays :
      (status : OrderStatus) (id : ℕ) (db : Db)
      → Stays db
      → Stays (settle_status input status id db).1
  unfolding settle_status
  settle_status-Stays OrderStatus.cancelled id db found =
      refund-Stays RefundReason.order_already_cancelled db found
  settle_status-Stays OrderStatus.pending id db found =
      ground (arith, mark_paid-Stays id input.payment_intent_id db found)
  settle_status-Stays OrderStatus.paid id db found =
      ground (arith, mark_paid-Stays id input.payment_intent_id db found)

  settle_order-Stays : (r : Option Order) (db : Db) → Stays db → Stays (settle_order input r db).1
  unfolding settle_order
  settle_order-Stays none db found = found
  settle_order-Stays (some r) db found = ground (
    arith,
    settle_status-Stays r.status r.id db found,
    refund-Stays RefundReason.amount_mismatch db found,
  )

  settle_found-Stays : (db : Db) → Stays db → Stays (settle_found input db).1
  unfolding settle_found
  settle_found-Stays db found =
      settle_order-Stays (find (has_order_id input.order_id) db.orders) db found

-- No payment brings a cancelled order back: an order that is found cancelled by its id is found
-- the same after any settlement.
pub settle-cancelled :
    (now : ℕ) (input : SettlePayment) (db : Db) (j : ℕ) (o : Order)
    → find (has_order_id j) db.orders ≡ some o
    → o.status ≡ OrderStatus.cancelled
    → find (has_order_id j) (settle now input db).1.orders ≡ some o
settle-cancelled now input db j o found gone = elim (Bool-cases (is_marked input db)) [
  | inl old ↦ rw (settle_marked now input db old) found
  | inr new ↦
      rw (settle_unmarked now input db new)
        (ground (arith, settle_found-Stays input j o gone (with_mark now input db) found))
]

-- The first delivery of a payment of a pending order in the full amount, by an intent that no order
-- carries, marks that order paid with that intent.
pub settle_pending :
    (now : ℕ) (input : SettlePayment) (db : Db) (o : Order)
    → is_marked input db ≡ false
    → count_where (has_order_id input.order_id) db.orders ≤ 1
    → find (has_order_id input.order_id) db.orders ≡ some o
    → o.status ≡ OrderStatus.pending
    → o.total_vnd ≡ input.amount_vnd
    → find (has_intent input.payment_intent_id) db.orders ≡ none
    → (settle now input db ≡ (
      ok Settlement.now_paid,
      record (with_mark now input db) {
        orders = update_where (payable input.order_id) (pay_row input.payment_intent_id) db.orders;
      },
    ))
      × (find (has_order_id input.order_id) (settle now input db).1.orders
          ≡ some (pay_row input.payment_intent_id o))
unfolding settle_found
settle_pending now input db o new unique found pending exact free = ground (
  arith,
  settle_unmarked now input db new,
  find-holds (has_order_id input.order_id) db.orders o found,
  find-and (has_order_id input.order_id) (λ r. is_pending r.status) db.orders,
  find-some_count (payable input.order_id) db.orders o,
  find-update_where (payable input.order_id) (has_order_id input.order_id)
      (pay_row input.payment_intent_id) (λ x. refl) db.orders,
)

-- The first delivery of a payment in another amount than the order's total, or for a cancelled
-- order, records a refund request for the paid amount with the reason, and leaves the orders alone,
-- provided that the amount is not 0 and no refund has that payment intent.
pub settle_refused :
    (now : ℕ) (input : SettlePayment) (db : Db) (o : Order)
    → is_marked input db ≡ false
    → find (has_order_id input.order_id) db.orders ≡ some o
    → find (λ r. r.payment_intent_id == input.payment_intent_id) db.refunds ≡ none
    → 1 ≤ input.amount_vnd
    → (o.total_vnd ≢ input.amount_vnd) ⊎ (o.status ≡ OrderStatus.cancelled)
    → let reason =
        if o.total_vnd == input.amount_vnd
        then RefundReason.order_already_cancelled
        else RefundReason.amount_mismatch in
      settle now input db ≡ (
        ok (Settlement.refund_required reason),
        record (with_mark now input db) { refunds = db.refunds ++ (refund_of input reason ∷ []) },
      )
unfolding settle_found
settle_refused now input db o new found free positive why =
    ground (arith, settle_unmarked now input db new)
