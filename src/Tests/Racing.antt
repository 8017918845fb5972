-- ===== src/Tests/Racing.antt =====
-- Calls on the shop that run at the same time.
use flash_core.Common.{◌≤◌, ◌≡◌, refl, true, [], ◌∷◌, arith}
use flash_core.Inventory.Pessimistic.{pessimistic}
use flash_core.Inventory.Stock.{stock_of}
use flash_core.Orders.{CancelScope, Setting, cancel_expired, place_direct_order}
use flash_core.Orders.Ledger.{Shelf, held}
use flash_core.Orders.Ledger.Cancelling.{total_on}
use flash_core.Interleaving.Calls.{Call, Moment, advance}
use flash_core.Interleaving.Keys.{IsConsistent}
use flash_core.Interleaving.Runs.{
  System, Reach, here, next, runs, stops, arrives, everywhere, Reach-everywhere, Reach-held,
}
use flash_core.Interleaving.Alone.{alone, at_once, place_direct_order-alone}
use flash_core.Tests.Shop.{shop, shop_db, shop-IsKeyed, shop-HasOrders, shop-IsLinked}

abbrev at_1000 : Moment
at_1000 = record {
  stamp = record { order_id = 12; outbox_id = 30; created_at = 1000 };
  now = 1000;
  expires_at = 1900;
}

shop-IsConsistent : IsConsistent shop_db
shop-IsConsistent = record {
  sku_keys = shop-IsKeyed;
  sale_keys = λ j. ground arith;
  order_keys = shop-IsLinked.order_keys;
  order_rows = shop-HasOrders;
  item_shelves = shop-IsLinked.item_shelves;
}

abbrev idle_shop : System
idle_shop = record { db = shop_db; calls = [] }

-- Four more shirts are asked for while the expiry of order 10 runs.
abbrev buying : Call
buying = Call.reserving 102 5 1 4

abbrev expiring : Call
expiring = Call.cancelling 10 CancelScope.expired

abbrev bought : System
bought = record {
  db = (advance at_1000 buying shop_db).1;
  calls = (advance at_1000 buying shop_db).0 ∷ expiring ∷ [];
}

abbrev both : System
both = record {
  db = (advance at_1000 expiring bought.db).1;
  calls = (advance at_1000 buying shop_db).0 ∷ (advance at_1000 expiring bought.db).0 ∷ [];
}

-- The buyer's process dies between its two statements.
abbrev died : System
died = record {
  db = both.db;
  calls =
      Call.stopped (advance at_1000 buying shop_db).0 ∷ (advance at_1000 expiring bought.db).0 ∷ [];
}

race : Reach idle_shop died
race =
    next
      (next
        (next
          (next {t = record { db = shop_db; calls = expiring ∷ [] }}
            (next {t = idle_shop} here (arrives expiring refl refl)) (arrives buying refl refl))
          (runs [] (expiring ∷ []) buying at_1000 refl refl))
        (runs ((advance at_1000 buying shop_db).0 ∷ []) [] expiring at_1000 refl refl))
      (stops [] ((advance at_1000 expiring bought.db).0 ∷ []) (advance at_1000 buying shop_db).0
        refl refl)

-- The four shirts of the dead call are in no order and not in stock.
died_run : (stock_of 1 died.db ≡ 3) × (held (Shelf.of_sku 1) died.db ≡ 1)
unfolding advance stock_of flash_core.Orders.Ledger.held_in
died_run = (refl, refl)

Reach-everywhere_example : everywhere (Shelf.of_sku 1) died ≡ everywhere (Shelf.of_sku 1) idle_shop
Reach-everywhere_example =
    Reach-everywhere (Shelf.of_sku 1) idle_shop died shop-IsConsistent tt race

Reach-held_example : held (Shelf.of_sku 1) died.db ≤ total_on (Shelf.of_sku 1) idle_shop.db
Reach-held_example = Reach-held (Shelf.of_sku 1) idle_shop died shop-IsConsistent refl race

abbrev quarter : Setting
quarter = record {
  hold_minutes = 15;
  node_now = 1000;
  reserved_at = 1000;
  diagnosed_at = 1000;
  queue_up = true;
}

place_direct_order-alone_example :
    (place_direct_order at_1000.stamp quarter pessimistic 102 5 1 4 shop).1.db
    ≡ (alone 5 (at_once at_1000.stamp quarter 102 5 1 4) (Call.reserving 102 5 1 4, shop_db)).1
place_direct_order-alone_example =
    place_direct_order-alone at_1000.stamp quarter 102 5 1 4 5 shop shop-IsKeyed (omega arith)
