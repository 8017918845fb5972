-- ===== src/Interleaving/Paying.antt =====
-- A payment against the units that orders hold: it makes an order paid or writes none.
use mathlib.Core.Path.{subst}
use flash_core.Common.{
  ℕ, ◌≡◌, refl, sym, Bool, true, false, Option, none, some, ◌==◌, ◌&&◌, ltb, if◌then◌else◌, arith,
  Bool-cases, inl, inr,
}
use flash_core.Common.Table.{
  find, exists_row, count_where, update_where, find-update_where, count-update_where,
}
use flash_core.Store.{Db, Order, OrderStatus, RefundReason, Result, ok, err, is_unique_violation}
use flash_core.Orders.{has_order_id}
use flash_core.Payments.{
  SettlePayment, Settlement, has_intent, payable, pay_row, mark_paid, refund, settle_status,
  settle_order, settle_found, settle,
}
use flash_core.Payments.Laws.{is_marked, with_mark, ended, settle_marked, settle_unmarked}
use flash_core.Interleaving.Keys.{SameOrders, SameOrders-refl}

-- A payment marks an order paid, or writes no order.
pub record Pays (db d : Db) : Type 0 where
  pub skus : d.skus ≡ db.skus
  pub sale_skus : d.sale_skus ≡ db.sale_skus
  pub purchases : d.purchases ≡ db.purchases
  pub orders : SameOrders db d

keeps_orders :
    (db d : Db)
    → d.skus ≡ db.skus
    → d.sale_skus ≡ db.sale_skus
    → d.purchases ≡ db.purchases
    → d.orders ≡ db.orders
    → d.order_items ≡ db.order_items
    → Pays db d
keeps_orders db d skus sales purchases orders items = record {
  skus = skus;
  sale_skus = sales;
  purchases = purchases;
  orders = SameOrders-refl db d orders items;
}

marked-Pays :
    (id intent : ℕ) (db : Db)
    → Pays db (record db { orders = update_where (payable id) (pay_row intent) db.orders })
marked-Pays id intent db = record {
  skus = refl;
  sale_skus = refl;
  purchases = refl;
  orders = record {
    items = refl;
    lives = λ j. ground (
      arith,
      find-update_where (payable id) (has_order_id j) (pay_row intent) (λ x. refl) db.orders,
    );
    rows = λ j. ground (
      arith,
      find-update_where (payable id) (has_order_id j) (pay_row intent) (λ x. refl) db.orders,
    );
    counts = λ j.
        count-update_where (payable id) (has_order_id j) (pay_row intent) (λ x. refl) db.orders;
  };
}

abbrev breaks : ℕ → ℕ → Db → Bool
breaks id intent db =
    ltb 0 (count_where (payable id) db.orders) && exists_row (has_intent intent) db.orders

-- `markPaid` is the UPDATE, or breaks and changes nothing.
mark_paid_db :
    (id intent : ℕ) (db : Db)
    → (mark_paid id intent db).1 ≡ (
        if breaks id intent db
        then db
        else record db { orders = update_where (payable id) (pay_row intent) db.orders })
unfolding mark_paid
mark_paid_db id intent db = ground arith

if_Pays : (c : Bool) (db x y : Db) → Pays db x → Pays db y → Pays db (if c then x else y)
if_Pays true db x y p q = p
if_Pays false db x y p q = q

mark_paid-Pays : (id intent : ℕ) (db : Db) → Pays db (mark_paid id intent db).1
mark_paid-Pays id intent db = subst (Pays db) (sym (mark_paid_db id intent db)) (
    if_Pays (breaks id intent db) db db _ (keeps_orders db db refl refl refl refl refl)
      (marked-Pays id intent db))

refund-Pays :
    (input : SettlePayment) (reason : RefundReason) (db : Db) → Pays db (refund input reason db).1
unfolding refund
refund-Pays input reason db =
    keeps_orders db (refund input reason db).1 same.0 same.1 same.2 same.3 same.4
  where
    same :
        let d = (refund input reason db).1 in
        (d.skus ≡ db.skus)
        × (d.sale_skus ≡ db.sale_skus)
        × (d.purchases ≡ db.purchases)
        × (d.orders ≡ db.orders)
        × (d.order_items ≡ db.order_items)
    same = ground arith

-- After `markPaid` only the answer is read.
paid-Pays :
    (input : SettlePayment) (id : ℕ) (db : Db)
    → Pays db (settle_status input OrderStatus.pending id db).1
paid-Pays input id db = subst (Pays db) (sym same) (mark_paid-Pays id input.payment_intent_id db)
  where
    same :
        (settle_status input OrderStatus.pending id db).1
        ≡ (mark_paid id input.payment_intent_id db).1
    same = unfold settle_status in ground arith

settle_status-Pays :
    (input : SettlePayment) (status : OrderStatus) (id : ℕ) (db : Db)
    → Pays db (settle_status input status id db).1
settle_status-Pays input OrderStatus.cancelled id db =
    unfold settle_status in refund-Pays input RefundReason.order_already_cancelled db
settle_status-Pays input OrderStatus.pending id db = paid-Pays input id db
settle_status-Pays input OrderStatus.paid id db = unfold settle_status in paid-Pays input id db

settle_order-Pays :
    (input : SettlePayment) (found : Option Order) (db : Db)
    → Pays db (settle_order input found db).1
unfolding settle_order
settle_order-Pays input none db = keeps_orders db db refl refl refl refl refl
settle_order-Pays input (some o) db = elim (Bool-cases (o.total_vnd == input.amount_vnd)) [
  | inl exact ↦ rw exact (settle_status-Pays input o.status o.id db)
  | inr other ↦ rw other (refund-Pays input RefundReason.amount_mismatch db)
]

-- The mark of the event is no order.
settle_found-Pays :
    (now : ℕ) (input : SettlePayment) (db : Db)
    → Pays db (settle_found input (with_mark now input db)).1
unfolding settle_found
settle_found-Pays now input db = record {
  skus = whole.skus;
  sale_skus = whole.sale_skus;
  purchases = whole.purchases;
  orders = record {
    items = whole.orders.items;
    lives = whole.orders.lives;
    rows = whole.orders.rows;
    counts = whole.orders.counts;
  };
}
  where
    whole : Pays (with_mark now input db) (settle_found input (with_mark now input db)).1
    whole =
        settle_order-Pays input (find (has_order_id input.order_id) db.orders)
          (with_mark now input db)

closed-Pays : (db : Db) (res : Result Settlement × Db) → Pays db res.1 → Pays db (ended db res).1
closed-Pays db (ok s, d) h = h
closed-Pays db (err e, d) h = elim (Bool-cases (is_unique_violation e)) [
  | inl twice ↦ rw twice (keeps_orders db db refl refl refl refl refl)
  | inr other ↦ rw other (keeps_orders db db refl refl refl refl refl)
]

pub settle-Pays : (now : ℕ) (input : SettlePayment) (db : Db) → Pays db (settle now input db).1
settle-Pays now input db = elim (Bool-cases (is_marked input db)) [
  | inl old ↦ rw (settle_marked now input db old) (keeps_orders db db refl refl refl refl refl)
  | inr new ↦ rw (settle_unmarked now input db new) (
      closed-Pays db (settle_found input (with_mark now input db)) (settle_found-Pays now input db))
]
