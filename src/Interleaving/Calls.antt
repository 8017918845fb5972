-- ===== src/Interleaving/Calls.antt =====
-- The handlers of order.service.ts and order.expiry.service.ts cut at their statements: where a
-- call stands, and what its next statement does. Reads and counters between two statements change
-- no table and are no step of their own.
use flash_core.Common.{ℕ, Bool, true, false, Option, none, some, List, [], ◌∷◌, if◌then◌else◌}
use flash_core.Store.{Db, Result, ok, err, Order}
use flash_core.Inventory.{decrement_stock_conditional, increment_stock}
use flash_core.Orders.{
  Stamp, NewOrder, create_order, claim_user_quota, release_user_quota, decrement_sale_event_stock,
  increment_sale_event_stock, CancelScope, CancelledItem, cancel_pending_order,
}
use flash_core.Orders.Ledger.{Shelf, is_on, returned}
use flash_core.Payments.{SettlePayment, Settlement, settle}

-- The next statement of a call; `stopped` is a call whose next statement failed, or whose process
-- died before it.
pub data Call : Type 0 where
  -- an order by user and key for units of a SKU, or of a sale SKU
  reserving claiming taking : ℕ → ℕ → ℕ → ℕ → Call
  creating : NewOrder → Call
  cancelling : ℕ → CancelScope → Call
  releasing : List CancelledItem → Call
  -- a user's claim on a sale SKU, and the rows that are released after it
  unclaiming : ℕ → ℕ → ℕ → List CancelledItem → Call
  settling : SettlePayment → Call
  ended : Call
  stopped : Call → Call

-- What a statement meets: the generated values, PostgreSQL's clock, and the end of the hold.
pub record Moment : Type 0 where
  pub stamp : Stamp
  pub now : ℕ
  pub expires_at : ℕ

-- `release` on a duplicate key hands back the row that the reservation took.
abbrev pub row_of : NewOrder → CancelledItem
row_of input = record {
  sku_id = input.sku_id;
  quantity = input.quantity;
  sale_event_sku_id = input.sale_event_sku_id;
  user_id = input.user_id;
}

-- After `reserve` of the direct path: `createOrder`, or the refusal.
unfoldable pub on_reserved : Moment → ℕ → ℕ → ℕ → ℕ → Result (Option ℕ) × Db → Call × Db
on_reserved m user key sku q (ok (some price), d) = (
  Call.creating (record {
    user_id = user;
    idempotency_key = key;
    sku_id = sku;
    quantity = q;
    unit_price_vnd = price;
    expires_at = m.expires_at;
    sale_event_sku_id = none;
  }),
  d,
)
on_reserved m user key sku q (ok none, d) = (Call.ended, d)
on_reserved m user key sku q (err e, d) = (Call.stopped (Call.reserving user key sku q), d)

unfoldable pub on_claimed : ℕ → ℕ → ℕ → ℕ → Result Bool × Db → Call × Db
on_claimed user key sale q (ok true, d) = (Call.taking user key sale q, d)
on_claimed user key sale q (ok false, d) = (Call.ended, d)
on_claimed user key sale q (err e, d) = (Call.stopped (Call.claiming user key sale q), d)

-- After `decrementSaleEventStock`: `createOrder`, or the claim is given back.
unfoldable pub on_taken : Moment → ℕ → ℕ → ℕ → ℕ → Result (Option (ℕ × ℕ)) × Db → Call × Db
on_taken m user key sale q (ok (some (price, sku)), d) = (
  Call.creating (record {
    user_id = user;
    idempotency_key = key;
    sku_id = sku;
    quantity = q;
    unit_price_vnd = price;
    expires_at = m.expires_at;
    sale_event_sku_id = some sale;
  }),
  d,
)
on_taken m user key sale q (ok none, d) = (Call.unclaiming sale user q [], d)
on_taken m user key sale q (err e, d) = (Call.stopped (Call.taking user key sale q), d)

unfoldable pub on_created : NewOrder → Result (Option Order) × Db → Call × Db
on_created input (ok (some o), d) = (Call.ended, d)
on_created input (ok none, d) = (Call.releasing (row_of input ∷ []), d)
on_created input (err e, d) = (Call.stopped (Call.creating input), d)

unfoldable pub on_cancelled :
    ℕ → CancelScope → Result (Option (List CancelledItem)) × Db → Call × Db
on_cancelled id scope (ok (some rows), d) = (Call.releasing rows, d)
on_cancelled id scope (ok none, d) = (Call.ended, d)
on_cancelled id scope (err e, d) = (Call.stopped (Call.cancelling id scope), d)

unfoldable pub on_unclaimed : List CancelledItem → Result (Unit {0}) × Db → Call × Db
on_unclaimed rows (ok done, d) = (Call.releasing rows, d)
on_unclaimed rows (err e, d) = (Call.stopped (Call.releasing rows), d)

-- The first statement of `releaseStock` for one row.
unfoldable pub release_first : CancelledItem → List CancelledItem → Option ℕ → Db → Call × Db
unfolding increment_stock increment_sale_event_stock
release_first item rows none db =
    (Call.releasing rows, (increment_stock item.sku_id item.quantity db).1)
release_first item rows (some sale) db = (
  Call.unclaiming sale item.user_id item.quantity rows,
  (increment_sale_event_stock sale item.quantity db).1,
)

unfoldable pub on_settled : SettlePayment → Result Settlement × Db → Call × Db
on_settled input (ok outcome, d) = (Call.ended, d)
on_settled input (err e, d) = (Call.stopped (Call.settling input), d)

-- One statement of a call.
unfoldable pub advance : Moment → Call → Db → Call × Db
unfolding decrement_stock_conditional claim_user_quota decrement_sale_event_stock create_order
    cancel_pending_order release_user_quota settle on_reserved on_claimed on_taken on_created
    on_cancelled on_unclaimed release_first on_settled
advance m (Call.reserving user key sku q) db =
    on_reserved m user key sku q (decrement_stock_conditional sku q db)
advance m (Call.claiming user key sale q) db =
    on_claimed user key sale q (claim_user_quota sale user q db)
advance m (Call.taking user key sale q) db =
    on_taken m user key sale q (decrement_sale_event_stock m.now sale q db)
advance m (Call.creating input) db = on_created input (create_order m.stamp input db)
advance m (Call.cancelling id scope) db =
    on_cancelled id scope (cancel_pending_order m.now id scope db)
advance m (Call.releasing []) db = (Call.ended, db)
advance m (Call.releasing (item ∷ items)) db = release_first item items item.sale_event_sku_id db
advance m (Call.unclaiming sale user q rows) db =
    on_unclaimed rows (release_user_quota sale user q db)
advance m (Call.settling input) db = on_settled input (settle m.now input db)
advance m Call.ended db = (Call.ended, db)
advance m (Call.stopped call) db = (Call.stopped call, db)

-- The units of a shelf that a call has taken and not yet put into an order or back.
abbrev pub in_flight : Shelf → Call → ℕ
in_flight shelf (Call.reserving user key sku q) = 0
in_flight shelf (Call.claiming user key sale q) = 0
in_flight shelf (Call.taking user key sale q) = 0
in_flight shelf (Call.creating input) =
    if is_on shelf input.sku_id input.sale_event_sku_id then input.quantity else 0
in_flight shelf (Call.cancelling id scope) = 0
in_flight shelf (Call.releasing rows) = returned shelf rows
in_flight shelf (Call.unclaiming sale user q rows) = returned shelf rows
in_flight shelf (Call.settling input) = 0
in_flight shelf Call.ended = 0
in_flight shelf (Call.stopped call) = in_flight shelf call
