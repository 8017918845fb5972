-- ===== src/Tests/Placing.antt =====
-- Orders placed in the shop.
use flash_core.Common.{◌≡◌, refl, true, false, none, some, [], ◌∷◌, arith}
use flash_core.Store.{World, ok, err, Error, PlacedLabel}
use flash_core.Inventory.{take_stock, give_stock, verdict}
use flash_core.Inventory.Stock.{stock_of}
use flash_core.Inventory.Pessimistic.{pessimistic}
use flash_core.Inventory.Contract.{pessimistic-IsSound}
use flash_core.Orders.{Stamp, Setting, place_order, place_direct_order, create_order}
use flash_core.Orders.Placing.{
  direct_input, sold_order, sold_world, place_direct_order_creates, place_direct_order_duplicate,
  place_direct_order_overflow, place_direct_order_sold_out,
}
use flash_core.Orders.Ledger.Creating.{
  Creates, create_order-Creates, Books, total, place_direct_order-total,
}
use flash_core.Tests.Shop.{shop, shop_db, shop-IsKeyed, shop-HasOrders, order_of_lan}

abbrev stamp : Stamp
stamp = record { order_id = 12; outbox_id = 40; created_at = 150 }

abbrev setting : Setting
setting = record {
  hold_minutes = 15;
  node_now = 150;
  reserved_at = 150;
  diagnosed_at = 151;
  queue_up = true;
}

place_run :
    let (r, w) =
      place_order stamp setting pessimistic 100 79
        (record { sku_id = some 1; sale_event_sku_id = none; quantity = 3 })
        shop in
    (w.placed ≡ PlacedLabel.created ∷ []) × (stock_of 1 w.db ≡ 4)
unfolding place_order create_order pessimistic stock_of
place_run = (refl, refl)

create_order-Creates_example :
    Creates stamp
      (direct_input stamp setting 100 79 1 3 500)
      shop_db
      (create_order stamp (direct_input stamp setting 100 79 1 3 500) shop_db)
create_order-Creates_example =
    create_order-Creates stamp (direct_input stamp setting 100 79 1 3 500) shop_db

place_direct_order-total_example :
    Books 1 1 3 (total 1 shop_db) (place_direct_order stamp setting pessimistic 100 79 1 3 shop)
place_direct_order-total_example =
    place_direct_order-total stamp setting pessimistic pessimistic-IsSound 1 100 79 1 3 shop
      shop-IsKeyed shop-HasOrders

-- The shop after three shirts, or two of the expensive caps, were taken.
abbrev after_shirts : World
after_shirts = record shop { db = take_stock 1 3 shop_db }

abbrev after_caps : World
after_caps = record shop { db = take_stock 2 2 shop_db }

place_direct_order_creates_example :
    place_direct_order stamp setting pessimistic 100 79 1 3 shop ≡ (
      ok (record { order = sold_order stamp setting 100 79 1 3 500; created = true }),
      sold_world stamp setting 100 79 1 3 500 after_shirts,
    )
unfolding pessimistic take_stock
place_direct_order_creates_example =
    place_direct_order_creates stamp setting 100 79 1 3 500 pessimistic 1 shop after_shirts refl
      (omega arith) (omega arith) refl refl

place_direct_order_duplicate_example :
    let (r, w') = place_direct_order stamp setting pessimistic 100 77 1 3 shop in
    (r ≡ ok (record { order = order_of_lan; created = false }))
    × (w'.db ≡ give_stock 1 3 (take_stock 1 3 shop_db))
    × (w'.placed ≡ PlacedLabel.duplicate ∷ [])
unfolding pessimistic take_stock
place_direct_order_duplicate_example =
    place_direct_order_duplicate stamp setting 100 77 1 3 500 pessimistic 1 shop after_shirts refl
      order_of_lan pessimistic-IsSound (omega arith) (omega arith) refl

place_direct_order_overflow_example :
    place_direct_order stamp setting pessimistic 100 79 2 2 shop
    ≡ (err Error.query_failed, after_caps)
unfolding pessimistic take_stock
place_direct_order_overflow_example =
    place_direct_order_overflow stamp setting 100 79 2 2 2_000_000_000 pessimistic 1 shop after_caps
      refl (omega arith)

place_direct_order_sold_out_example :
    place_direct_order stamp setting pessimistic 100 77 1 8 shop
    ≡ (err Error.out_of_stock, record shop { placed = PlacedLabel.out_of_stock ∷ [] })
unfolding verdict
place_direct_order_sold_out_example =
    place_direct_order_sold_out stamp setting 100 77 1 8 shop shop-IsKeyed refl
