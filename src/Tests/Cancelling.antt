-- ===== src/Tests/Cancelling.antt =====
-- Orders of the shop cancelled.
use flash_core.Common.{◌≡◌, refl, true, none, List, [], ◌∷◌, arith}
use flash_core.Store.{ok}
use flash_core.Inventory.Stock.{stock_of}
use flash_core.Inventory.Pessimistic.{pessimistic}
use flash_core.Inventory.RedisAtomic.{redis_release}
use flash_core.Inventory.Contract.{pessimistic-IsSound, IsCovered, redis_release-IsCovered}
use flash_core.Orders.{
  CancelScope, CancelledItem, cancel_pending_order, cancel_expired, cancel_order, sweep_expired,
}
use flash_core.Orders.Ledger.{Shelf}
use flash_core.Orders.Ledger.Cancelling.{total_on}
use flash_core.Orders.Ledger.Outcome.{
  Cancels, cancel_pending_order-Cancels, cancel_pending_order_once,
}
use flash_core.Orders.Ledger.Ending.{Settles, cancel_expired-Settles}
use flash_core.Orders.Ledger.Withdrawal.{Withdraws, cancel_order-Withdraws}
use flash_core.Orders.Ledger.Sweeping.{Keeps, sweep_expired-Keeps}
use flash_core.Tests.Shop.{shop, shop_db, shop-IsLinked, calm}

-- At 1000 the hold of order 10 is over: its two shirts go back.
expiry_run :
    let (r, w) = cancel_expired pessimistic 1000 10 shop in (r ≡ ok true) × (stock_of 1 w.db ≡ 9)
unfolding cancel_expired pessimistic stock_of cancel_pending_order
expiry_run = (refl, refl)

cancel_pending_order-Cancels_example :
    Cancels 1000 10 CancelScope.expired shop_db
      (cancel_pending_order 1000 10 CancelScope.expired shop_db)
cancel_pending_order-Cancels_example =
    cancel_pending_order-Cancels 1000 10 CancelScope.expired shop_db shop-IsLinked.order_keys

cancel_expired-Settles_example :
    Settles
      (Shelf.of_sku 1)
      (total_on (Shelf.of_sku 1) shop_db)
      (cancel_expired pessimistic 1000 10 shop)
cancel_expired-Settles_example =
    cancel_expired-Settles (Shelf.of_sku 1) pessimistic pessimistic-IsSound 1000 10 shop
      shop-IsLinked

abbrev rows_of_lan : List CancelledItem
rows_of_lan = record { sku_id = 1; quantity = 2; sale_event_sku_id = none; user_id = 100 } ∷ []

cancel_pending_order_once_example :
    let after = (cancel_pending_order 600 10 (CancelScope.by_user 100) shop_db).1 in
    cancel_pending_order 1000 10 CancelScope.expired after ≡ (ok none, after)
unfolding cancel_pending_order
cancel_pending_order_once_example =
    cancel_pending_order_once 600 1000 10 (CancelScope.by_user 100) CancelScope.expired shop_db
      rows_of_lan shop-IsLinked.order_keys refl

redis_release-IsCovered_example : IsCovered 1 (redis_release calm 1 2 shop).1
unfolding stock_of
redis_release-IsCovered_example = redis_release-IsCovered calm 1 1 2 shop refl refl (omega arith)

cancel_order-Withdraws_example :
    Withdraws
      (Shelf.of_sku 1)
      (total_on (Shelf.of_sku 1) shop_db)
      (cancel_order pessimistic 600 10 100 shop)
cancel_order-Withdraws_example =
    cancel_order-Withdraws (Shelf.of_sku 1) pessimistic pessimistic-IsSound 600 100 10 shop
      shop-IsLinked

sweep_expired-Keeps_example :
    Keeps
      (Shelf.of_sku 1)
      (total_on (Shelf.of_sku 1) shop_db)
      (sweep_expired pessimistic 1000 1000 shop)
sweep_expired-Keeps_example =
    sweep_expired-Keeps (Shelf.of_sku 1) pessimistic pessimistic-IsSound 1000 1000 shop
      shop-IsLinked
