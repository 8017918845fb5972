-- ===== src/Tests/Shop.antt =====
-- A shop with two SKUs, one sale event and two orders.
use flash_core.Common.{refl, true, false, none, some, [], ◌∷◌, arith, ◌==◌, if◌then◌else◌}
use flash_core.Store.{Db, World, Sku, SaleEvent, SaleSku, Order, OrderStatus, OrderItem, Fate}
use flash_core.Inventory.{IsKeyed}
use flash_core.Orders.Ledger.{HasOrders}
use flash_core.Orders.Ledger.Ending.{IsLinked}
use flash_core.Inventory.Optimistic
use flash_core.Inventory.RedisAtomic

abbrev pub shirt : Sku
shirt = record { id = 1; price_vnd = 500; stock = 7; is_active = true; version = 0 }

abbrev pub cap_sku : Sku
cap_sku = record { id = 2; price_vnd = 2_000_000_000; stock = 3; is_active = true; version = 0 }

abbrev pub friday : SaleEvent
friday = record {
  id = 50;
  slug = 8;
  starts_at = 100;
  ends_at = 200;
  is_published = true;
  is_settled = false;
}

abbrev pub sale_shirt : SaleSku
sale_shirt = record {
  id = 60;
  sale_event_id = 50;
  sku_id = 1;
  sale_price_vnd = 300;
  allocated_stock = 5;
  stock = 4;
  per_user_limit = 2;
}

abbrev pub order_of_lan : Order
order_of_lan = record {
  id = 10;
  user_id = 100;
  status = OrderStatus.pending;
  total_vnd = 1000;
  idempotency_key = 77;
  expires_at = 900;
  created_at = 5;
  payment_intent_id = none;
}

abbrev pub order_of_minh : Order
order_of_minh = record {
  id = 11;
  user_id = 101;
  status = OrderStatus.paid;
  total_vnd = 500;
  idempotency_key = 78;
  expires_at = 950;
  created_at = 6;
  payment_intent_id = some 9000;
}

abbrev pub item_of_lan : OrderItem
item_of_lan = record {
  order_id = 10;
  sku_id = 1;
  sale_event_sku_id = none;
  quantity = 2;
  unit_price_vnd = 500;
}

abbrev pub item_of_minh : OrderItem
item_of_minh = record {
  order_id = 11;
  sku_id = 1;
  sale_event_sku_id = none;
  quantity = 1;
  unit_price_vnd = 500;
}

abbrev pub shop_db : Db
shop_db = record {
  skus = shirt ∷ cap_sku ∷ [];
  sale_events = friday ∷ [];
  sale_skus = sale_shirt ∷ [];
  purchases = record { sale_sku_id = 60; user_id = 100; quantity = 1 } ∷ [];
  orders = order_of_lan ∷ order_of_minh ∷ [];
  order_items = item_of_lan ∷ item_of_minh ∷ [];
  outbox = [];
  refunds = [];
  processed = [];
}

abbrev pub shop : World
shop = record {
  db = shop_db;
  redis = λ k. if k == 1 then some 6 else none;
  expire_jobs = [];
  placed = [];
  cancelled = [];
}

pub shop-IsKeyed : IsKeyed shop_db
shop-IsKeyed k = ground arith

pub shop-HasOrders : HasOrders shop_db.orders shop_db.order_items
shop-HasOrders = (refl, (refl, tt))

pub shop-IsLinked : IsLinked shop_db
shop-IsLinked = record { order_keys = λ j. ground arith; item_shelves = (refl, (refl, tt)) }

-- The first attempt meets a conflict, the others run.
abbrev pub one_conflict : Optimistic.Fates
one_conflict = record {
  update = λ i. if i == 1 then Fate.conflicts else Fate.runs;
  check = λ i. Fate.runs;
  give = Fate.runs;
}

abbrev pub calm : RedisAtomic.Fates
calm = record {
  script = Fate.runs;
  read = Fate.runs;
  set = Fate.runs;
  evicted = false;
  second_script = Fate.runs;
  update = Fate.runs;
  incr = Fate.runs;
  give = Fate.runs;
}
