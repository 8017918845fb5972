-- ===== src/Tests/Selling.antt =====
-- Sale events of the shop.
use flash_core.Common.{◌+◌, ◌≡◌, refl, true, false, none, some, List, [], ◌∷◌, arith}
use flash_core.Common.Table.{find}
use flash_core.Store.{Db, World, SaleEvent, SaleSku, ok, err, Error}
use flash_core.SaleEvents.Drafting.{DraftItem, CreateSaleEventDto, drafted_event, create}
use flash_core.SaleEvents.Repeating.{create_repeated}
use flash_core.Inventory.Stock.{stock_of}
use flash_core.Inventory.Pessimistic.{pessimistic}
use flash_core.Orders.{CancelledItem, release_stock, has_sale_id, is_open}
use flash_core.SaleEvents.{publish, publish_item, settle_ended, Returned}
use flash_core.SaleEvents.Allocation.{available, HasSaleKeys, publish-available}
use flash_core.SaleEvents.Returning.{HasItemKeys, settle_ended-available}
use flash_core.SaleEvents.Once.{settle_ended_once, release_stock_after_settling}
use flash_core.SaleEvents.Status.{sale_event_status, shows_open, sale_event_status-is_open}
use flash_core.Tests.Shop.{shop, shop_db, shop-IsKeyed, friday, sale_shirt}

-- A second event with three shirts, not published yet.
abbrev sunday : SaleEvent
sunday = record {
  id = 51;
  slug = 9;
  starts_at = 300;
  ends_at = 400;
  is_published = false;
  is_settled = false;
}

abbrev sunday_shirt : SaleSku
sunday_shirt = record {
  id = 61;
  sale_event_id = 51;
  sku_id = 1;
  sale_price_vnd = 250;
  allocated_stock = 3;
  stock = 0;
  per_user_limit = 1;
}

abbrev two_events : Db
two_events = record shop_db {
  sale_events = friday ∷ sunday ∷ [];
  sale_skus = sale_shirt ∷ sunday_shirt ∷ [];
}

two_events-HasSaleKeys : HasSaleKeys two_events
two_events-HasSaleKeys j = ground arith

two_events-HasItemKeys : HasItemKeys two_events
two_events-HasItemKeys s = ground arith

publish_run : let (r, d) = publish 51 two_events in (r ≡ ok tt) × (stock_of 1 d ≡ 4)
unfolding publish publish_item stock_of
publish_run = (refl, refl)

publish-available_example : available 1 (publish 51 two_events).1 ≡ available 1 two_events
publish-available_example =
    publish-available 1 51 two_events shop-IsKeyed two_events-HasSaleKeys (λ h. refl)

-- Friday's event is over at 250: the four shirts left go back.
settle_run : let (r, d) = settle_ended 250 50 two_events in stock_of 1 d ≡ 11
unfolding settle_ended stock_of
settle_run = refl

settle_ended-available_example :
    available 1 (settle_ended 250 50 two_events).1 ≡ available 1 two_events
settle_ended-available_example =
    settle_ended-available 1 250 50 two_events two_events-HasItemKeys (refl, (refl, tt))

abbrev four_shirts : List Returned
four_shirts = record { sku_id = 1; returned = 4 } ∷ []

settle_ended_once_example :
    settle_ended 300 50 (settle_ended 250 50 two_events).1
    ≡ (ok none, (settle_ended 250 50 two_events).1)
unfolding settle_ended
settle_ended_once_example = settle_ended_once 250 300 50 two_events four_shirts (omega arith) refl

abbrev friday_closed : World
friday_closed = record shop {
  db = record shop_db { sale_events = record friday { is_settled = true } ∷ [] };
}

abbrev late_shirt : CancelledItem
late_shirt = record { sku_id = 1; quantity = 1; sale_event_sku_id = some 60; user_id = 100 }

release_stock_after_settling_example :
    let after = (release_stock pessimistic late_shirt friday_closed).1.db in
    (find (has_sale_id 60) after.sale_skus ≡ some (record sale_shirt { stock = 5 }))
    × (settle_ended 900 50 after ≡ (ok none, after))
release_stock_after_settling_example =
    release_stock_after_settling pessimistic 900 60 late_shirt friday_closed
      (record friday { is_settled = true }) sale_shirt refl refl (omega arith) refl refl

sale_event_status-is_open_example : shows_open (sale_event_status 150 friday) ≡ is_open 150 friday
sale_event_status-is_open_example = sale_event_status-is_open 150 friday

abbrev draft_item : DraftItem
draft_item = record { sku_id = 1; sale_price_vnd = 900; allocated_stock = 1; per_user_limit = 2 }

abbrev saturday : CreateSaleEventDto
saturday = record { slug = 77; starts_at = 300; ends_at = 400; items = [] }

create_run :
    (create 52 (λ n. n + 70) (record saturday { items = draft_item ∷ [] }) shop_db).0
    ≡ ok (drafted_event 52 (record saturday { items = draft_item ∷ [] }))
unfolding create
create_run = refl

create_repeated_example :
    create 52 (λ n. n + 70) (record saturday { items = draft_item ∷ draft_item ∷ [] }) shop_db
    ≡ (err Error.sale_event_slug_taken, shop_db)
create_repeated_example =
    create_repeated 52 (λ n. n + 70) draft_item draft_item refl saturday [] shop_db refl
      (refl, refl) (refl, refl) refl
