-- ===== src/Interleaving/Advancing.antt =====
-- Each statement of a call keeps the books of every shelf.
use mathlib.Core.Path.{subst}
use flash_core.Common.{
  ℕ, ◌≡◌, refl, sym, Bool, true, false, Option, none, some, List, [], ◌∷◌, arith,
}
use flash_core.Store.{Db, Order, Result, ok, err}
use flash_core.Inventory.{take_stock, verdict, Verdict, settled, increment_stock, give_stock}
use flash_core.Inventory.Stock.{granted-stock_of}
use flash_core.Inventory.Contract.{price_of, decrement_stock_conditional_lem}
use flash_core.Orders.{
  NewOrder, CancelScope, CancelledItem, create_order, claim_user_quota, release_user_quota,
  decrement_sale_event_stock, increment_sale_event_stock, cancel_pending_order,
}
use flash_core.Orders.Ledger.{Shelf}
use flash_core.Orders.Ledger.Creating.{Creates, create_order-Creates}
use flash_core.Orders.Ledger.Cancelling.{
  HasShelf, HaveShelves, give_stock-Gives, increment-Gives, QuotaOnly, release_user_quota-QuotaOnly,
}
use flash_core.Orders.Ledger.Outcome.{Cancels, cancel_pending_order-Cancels}
use flash_core.Payments.{SettlePayment, Settlement, settle}
use flash_core.Interleaving.Calls.{
  Call, Moment, on_reserved, on_claimed, on_taken, on_created, on_cancelled, on_unclaimed,
  release_first, on_settled, advance,
}
use flash_core.Interleaving.Keys.{IsConsistent, IsBacked, SameShelves-refl, SameOrders-refl}
use flash_core.Interleaving.Statements.{
  take_stock-SameShelves, take_stock-units, give_stock-SameShelves, claim-purchases, SaleTaken,
  decrement_sale_event_stock-SaleTaken, taken_sale, taken_sale-SameShelves, taken_sale-units,
  increment-SameShelves,
}
use flash_core.Interleaving.Writing.{
  with_order-SameShelves, with_order-IsConsistent, with_order-held, with_order-units,
  cancelled_db-SameShelves, cancelled_db-IsConsistent, rows_of-HaveShelves, cancelled_db-total,
}
use flash_core.Interleaving.Paying.{Pays, settle-Pays}
use flash_core.Interleaving.Balance.{
  Advances, idle-Advances, stock-Advances, purchases-Advances, paid-Advances,
}

module _ (shelf : Shelf) (m : Moment) (db : Db) (keys : IsConsistent db) where
  reserving-Advances :
      (user key sku q : ℕ) (v : Verdict)
      → verdict sku q db ≡ v
      → Advances shelf
          (Call.reserving user key sku q)
          db
          (on_reserved m user key sku q (ok (price_of v), settled sku q v db))
  unfolding on_reserved
  reserving-Advances user key sku q (Verdict.granted price) grant =
      stock-Advances shelf m db keys (Call.reserving user key sku q) _ (take_stock sku q db)
        (take_stock-SameShelves sku q db)
        (unfold take_stock in SameOrders-refl db (take_stock sku q db) refl refl)
        (omega (arith, take_stock-units shelf sku q price db grant))
        (granted-stock_of sku q price db grant).1
  reserving-Advances user key sku q (Verdict.denied reason) grant =
      idle-Advances shelf m db keys (Call.reserving user key sku q) Call.ended db refl refl tt

  claiming-Advances :
      (user key sale q : ℕ) (res : Result Bool × Db)
      → res.1 ≡ record db { purchases = res.1.purchases }
      → Advances shelf (Call.claiming user key sale q) db (on_claimed user key sale q res)
  unfolding on_claimed
  claiming-Advances user key sale q (ok true, d) same =
      purchases-Advances shelf m db keys (Call.claiming user key sale q) _ d same refl tt
  claiming-Advances user key sale q (ok false, d) same =
      purchases-Advances shelf m db keys (Call.claiming user key sale q) Call.ended d same refl tt
  claiming-Advances user key sale q (err e, d) same =
      purchases-Advances shelf m db keys (Call.claiming user key sale q) _ d same refl tt

  taking-Advances :
      (user key sale q : ℕ) (res : Result (Option (ℕ × ℕ)) × Db)
      → SaleTaken m.now sale q db res
      → Advances shelf (Call.taking user key sale q) db (on_taken m user key sale q res)
  unfolding on_taken
  taking-Advances user key sale q (ok (some x), d) (same, hit) =
      subst
        (λ s.
          Advances shelf (Call.taking user key sale q) db
            (on_taken m user key sale q (ok (some x), s)))
        (sym same)
        (stock-Advances shelf m db keys (Call.taking user key sale q) _ (taken_sale m.now sale q db)
          (taken_sale-SameShelves m.now sale q db)
          (SameOrders-refl db (taken_sale m.now sale q db) refl refl)
          (omega (arith, taken_sale-units m.now sale q db shelf x.1 hit)) (ground arith))
  taking-Advances user key sale q (ok none, d) same =
      idle-Advances shelf m db keys (Call.taking user key sale q) _ d same refl tt
  taking-Advances user key sale q (err e, d) same =
      idle-Advances shelf m db keys (Call.taking user key sale q) _ d same refl tt

  creating-Advances :
      (input : NewOrder) (res : Result (Option Order) × Db)
      → HasShelf input.sku_id input.sale_event_sku_id db
      → Creates m.stamp input db res
      → Advances shelf (Call.creating input) db (on_created input res)
  unfolding on_created
  creating-Advances input (ok (some o), d) there (mine, same, fresh, unused) =
      subst (λ s. Advances shelf (Call.creating input) db (Call.ended, s)) (sym same)
        (record {
          balance = omega (
            arith,
            with_order-held m.stamp input db fresh shelf keys,
            with_order-units m.stamp input db shelf,
          );
          keys = with_order-IsConsistent m.stamp input db fresh there keys;
          shelves = with_order-SameShelves m.stamp input db;
          backed = tt;
        })
  creating-Advances input (ok none, d) there same =
      idle-Advances shelf m db keys (Call.creating input) _ d same (omega arith) (there, tt)
  creating-Advances input (err e, d) there (same, broken) =
      idle-Advances shelf m db keys (Call.creating input) _ d same refl there

  cancelling-Advances :
      (id : ℕ) (scope : CancelScope) (res : Result (Option (List CancelledItem)) × Db)
      → Cancels m.now id scope db res
      → Advances shelf (Call.cancelling id scope) db (on_cancelled id scope res)
  unfolding on_cancelled
  cancelling-Advances id scope (ok (some rows), d) (same, hit, mine) =
      subst
        (λ (x : List CancelledItem × Db).
          Advances shelf (Call.cancelling id scope) db (Call.releasing x.0, x.1))
        (sym (ground arith))
        (record {
          balance = omega (arith, cancelled_db-total m.now id scope db shelf _ refl hit);
          keys = cancelled_db-IsConsistent m.now id scope db keys;
          shelves = cancelled_db-SameShelves m.now id scope db;
          backed = rows_of-HaveShelves m.now id scope db keys;
        })
  cancelling-Advances id scope (ok none, d) (same, gone) =
      idle-Advances shelf m db keys (Call.cancelling id scope) Call.ended d same refl tt
  cancelling-Advances id scope (err e, d) never = absurd never

  unclaiming-Advances :
      (sale user q : ℕ) (rows : List CancelledItem) (res : Result (Unit {0}) × Db)
      → HaveShelves rows db
      → QuotaOnly db res
      → Advances shelf (Call.unclaiming sale user q rows) db (on_unclaimed rows res)
  unfolding on_unclaimed
  unclaiming-Advances sale user q rows (ok done, d) backed same =
      purchases-Advances shelf m db keys (Call.unclaiming sale user q rows) _ d same refl backed
  unclaiming-Advances sale user q rows (err e, d) backed (broken, same) =
      idle-Advances shelf m db keys (Call.unclaiming sale user q rows) _ d same refl backed

  releasing-Advances :
      (item : CancelledItem) (rows : List CancelledItem) (origin : Option ℕ)
      → item.sale_event_sku_id ≡ origin
      → HasShelf item.sku_id origin db
      → HaveShelves rows db
      → Advances shelf (Call.releasing (item ∷ rows)) db (release_first item rows origin db)
  unfolding release_first
  releasing-Advances item rows none e there backed =
      let gives = give_stock-Gives shelf item.sku_id item.quantity db there in
      unfold increment_stock give_stock in
      stock-Advances shelf m db keys (Call.releasing (item ∷ rows)) (Call.releasing rows) _
        (give_stock-SameShelves item.sku_id item.quantity db)
        (SameOrders-refl db (give_stock item.sku_id item.quantity db) refl refl)
        (ground (arith, gives.units)) backed
  releasing-Advances item rows (some sale) e there backed =
      let gives = increment-Gives shelf item.sku_id sale item.quantity db there in
      stock-Advances shelf m db keys (Call.releasing (item ∷ rows)) _ _
        (increment-SameShelves sale item.quantity db)
        (SameOrders-refl db (increment_sale_event_stock sale item.quantity db).1 gives.same_orders
          gives.same_items)
        (ground (arith, gives.units)) backed

  settling-Advances :
      (input : SettlePayment) (res : Result Settlement × Db)
      → Pays db res.1
      → Advances shelf (Call.settling input) db (on_settled input res)
  unfolding on_settled
  settling-Advances input (ok outcome, d) pays =
      paid-Advances shelf m db keys (Call.settling input) Call.ended d pays refl tt
  settling-Advances input (err e, d) pays =
      paid-Advances shelf m db keys (Call.settling input) (Call.stopped (Call.settling input)) d
        pays refl tt

-- A call that stops keeps in flight what it had.
pub stopped-Advances :
    (shelf : Shelf) (call : Call) (db : Db)
    → IsConsistent db
    → IsBacked call db
    → Advances shelf call db (Call.stopped call, db)
stopped-Advances shelf call db keys backed = record {
  balance = refl;
  keys = keys;
  shelves = SameShelves-refl db db refl refl;
  backed = backed;
}

pub advance-Advances :
    (shelf : Shelf) (m : Moment) (call : Call) (db : Db)
    → IsConsistent db
    → IsBacked call db
    → Advances shelf call db (advance m call db)
unfolding advance
advance-Advances shelf m (Call.reserving user key sku q) db keys backed =
    subst
      (λ res. Advances shelf (Call.reserving user key sku q) db (on_reserved m user key sku q res))
      (sym (decrement_stock_conditional_lem sku q db keys.sku_keys))
      (reserving-Advances shelf m db keys user key sku q (verdict sku q db) refl)
advance-Advances shelf m (Call.claiming user key sale q) db keys backed =
    claiming-Advances shelf m db keys user key sale q (claim_user_quota sale user q db)
      (claim-purchases sale user q db)
advance-Advances shelf m (Call.taking user key sale q) db keys backed =
    taking-Advances shelf m db keys user key sale q (decrement_sale_event_stock m.now sale q db)
      (decrement_sale_event_stock-SaleTaken m.now sale q db keys)
advance-Advances shelf m (Call.creating input) db keys backed =
    creating-Advances shelf m db keys input (create_order m.stamp input db) backed
      (create_order-Creates m.stamp input db)
advance-Advances shelf m (Call.cancelling id scope) db keys backed =
    cancelling-Advances shelf m db keys id scope (cancel_pending_order m.now id scope db)
      (cancel_pending_order-Cancels m.now id scope db keys.order_keys)
advance-Advances shelf m (Call.releasing []) db keys backed =
    idle-Advances shelf m db keys (Call.releasing []) Call.ended db refl refl tt
advance-Advances shelf m (Call.releasing (item ∷ rows)) db keys backed =
    releasing-Advances shelf m db keys item rows item.sale_event_sku_id refl backed.0 backed.1
advance-Advances shelf m (Call.unclaiming sale user q rows) db keys backed =
    unclaiming-Advances shelf m db keys sale user q rows (release_user_quota sale user q db) backed
      (release_user_quota-QuotaOnly sale user q db)
advance-Advances shelf m (Call.settling input) db keys backed =
    settling-Advances shelf m db keys input (settle m.now input db) (settle-Pays m.now input db)
advance-Advances shelf m Call.ended db keys backed =
    idle-Advances shelf m db keys Call.ended Call.ended db refl refl tt
advance-Advances shelf m (Call.stopped call) db keys backed =
    idle-Advances shelf m db keys (Call.stopped call) (Call.stopped call) db refl refl backed
