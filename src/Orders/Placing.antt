-- ===== src/Orders/Placing.antt =====
-- What one direct order comes to: a new order, the old one under a key used before, or an error.
use flash_core.Common.{
  ℕ, ◌*◌, ◌≤◌, ◌<◌, ◌≡◌, true, false, none, some, List, [], ◌∷◌, ◌++◌, ◌+◌, Bool, ◌==◌, arith,
  le→leb, ◌||◌,
}
use flash_core.Common.Table.{find, exists_row, find-or_some}
use flash_core.Store.{
  Db, World, Order, OrderItem, OrderStatus, OutboxEvent, OutboxStatus, EventType, ExpireJob,
  PlacedLabel, ok, err, Error,
}
use flash_core.Inventory.{
  Reserver, Reserved, Refusal, IsSound, IsKeyed, Verdict, verdict, give_stock,
}
use flash_core.Inventory.Pessimistic.{pessimistic}
use flash_core.Inventory.Contract.{pessimistic_reserve-verdict}
use flash_core.Orders.Creation.{
  Stamp, NewOrder, has_order_id, has_key, new_order, create_order, int4_max,
}
use flash_core.Orders.Place.{
  Setting, finish_order, direct_order_with, place_direct_order, expiry_of,
}
use flash_core.Orders.Ledger.Creating.{with_order}

module _ (stamp : Stamp) (setting : Setting) (user key sku q price : ℕ) where
  -- The row that a grant at `price` asks for.
  abbrev pub direct_input : NewOrder
  direct_input = record {
    user_id = user;
    idempotency_key = key;
    sku_id = sku;
    quantity = q;
    unit_price_vnd = price;
    expires_at = expiry_of setting;
    sale_event_sku_id = none;
  }

  -- What the buyer gets.
  abbrev pub sold_order : Order
  sold_order = record {
    id = stamp.order_id;
    user_id = user;
    status = OrderStatus.pending;
    total_vnd = price * q;
    idempotency_key = key;
    expires_at = setting.node_now + setting.hold_minutes * 60_000;
    created_at = stamp.created_at;
    payment_intent_id = none;
  }

  abbrev pub sold_item : OrderItem
  sold_item = record {
    order_id = stamp.order_id;
    sku_id = sku;
    sale_event_sku_id = none;
    quantity = q;
    unit_price_vnd = price;
  }

  abbrev pub sold_event : OutboxEvent
  sold_event = record {
    id = stamp.outbox_id;
    event_type = EventType.order_placed;
    aggregate_id = stamp.order_id;
    user_id = user;
    total_vnd = price * q;
    status = OutboxStatus.waiting;
    attempts = 0;
    created_at = stamp.created_at;
    dispatched_at = none;
  }

  abbrev pub expiry_jobs : Bool → List ExpireJob → List ExpireJob
  expiry_jobs true jobs =
      record { order_id = stamp.order_id; delay = setting.hold_minutes * 60_000 } ∷ jobs
  expiry_jobs false jobs = jobs

  -- The world after the order: its three rows, the job that will expire it unless the queue is down,
  -- and the metric.
  abbrev pub sold_world : World → World
  sold_world v = record v {
    db = record v.db {
      orders = v.db.orders ++ (sold_order ∷ []);
      order_items = v.db.order_items ++ (sold_item ∷ []);
      outbox = v.db.outbox ++ (sold_event ∷ []);
    };
    expire_jobs = expiry_jobs setting.queue_up v.expire_jobs;
    placed = PlacedLabel.created ∷ v.placed;
  }

  create_order_new :
      (db : Db)
      → 1 ≤ price * q
      → price * q ≤ int4_max
      → find (λ o. has_order_id stamp.order_id o || has_key user key o) db.orders ≡ none
      → find (λ (e : OutboxEvent). e.id == stamp.outbox_id) db.outbox ≡ none
      → create_order stamp direct_input db
        ≡ (ok (some (new_order stamp direct_input)), with_order stamp direct_input db)
  unfolding create_order with_order
  create_order_new db low high unused fresh = ground (arith, le→leb (price * q) int4_max)

  create_order_used :
      (db : Db)
      → 1 ≤ price * q
      → price * q ≤ int4_max
      → exists_row (λ o. has_order_id stamp.order_id o || has_key user key o) db.orders ≡ true
      → create_order stamp direct_input db ≡ (ok none, db)
  unfolding create_order
  create_order_used db low high used = ground (arith, le→leb (price * q) int4_max)

  create_order_overflow :
      (db : Db)
      → int4_max < price * q
      → create_order stamp direct_input db ≡ (err Error.query_failed, db)
  unfolding create_order
  create_order_overflow db high = ground arith

  module _ (reserver : Reserver) (attempts : ℕ) (w v : World)
      (grant : reserver.reserve sku q w ≡ (ok (Reserved.reserved price attempts), v)) where
    -- With units reserved at `price`, an unused key and a positive total that fits its column, the
    -- order is created: pending, at that price, until the end of its hold, with one item of the `q`
    -- units and an event that waits in the outbox. Its expiry is queued, unless the queue is down, and
    -- it is counted as created; nothing else changes after the reservation.
    pub place_direct_order_creates :
        1 ≤ price * q
        → price * q ≤ int4_max
        → find (λ o. has_order_id stamp.order_id o || has_key user key o) v.db.orders ≡ none
        → find (λ (e : OutboxEvent). e.id == stamp.outbox_id) v.db.outbox ≡ none
        → place_direct_order stamp setting reserver user key sku q w
          ≡ (ok (record { order = sold_order; created = true }), sold_world v)
    unfolding place_direct_order direct_order_with finish_order with_order
    place_direct_order_creates low high unused fresh =
        ground (arith, grant, create_order_new v.db low high unused fresh)

    -- Under a key that the user has used, the call hands back the old order, not created, and the
    -- units that it had reserved.
    pub place_direct_order_duplicate :
        (o : Order)
        → IsSound reserver
        → 1 ≤ price * q
        → price * q ≤ int4_max
        → find (has_key user key) v.db.orders ≡ some o
        → let (r, w') = place_direct_order stamp setting reserver user key sku q w in
          (r ≡ ok (record { order = o; created = false }))
          × (w'.db ≡ give_stock sku q v.db)
          × (w'.placed ≡ PlacedLabel.duplicate ∷ v.placed)
    unfolding place_direct_order direct_order_with finish_order give_stock
    place_direct_order_duplicate o sound low high used =
        let known : exists_row (has_key user key) v.db.orders ≡ true = ground arith in
        ground (
          arith,
          grant,
          create_order_used v.db low high
              (find-or_some (has_order_id stamp.order_id) (has_key user key) v.db.orders known),
          sound.release_gives sku q v,
        )

    -- If the strategy reserved the units and the order's total is beyond the column's range, the
    -- call throws, and the world is the one that the reservation left: the units stay taken.
    pub place_direct_order_overflow :
        int4_max < price * q
        → place_direct_order stamp setting reserver user key sku q w ≡ (err Error.query_failed, v)
    unfolding place_direct_order direct_order_with finish_order
    place_direct_order_overflow high = ground (arith, grant, create_order_overflow v.db high)

-- With the pessimistic strategy, and unique SKU ids, a call for a SKU that has too few units left
-- is refused as out of stock, whatever orders there are: also where an earlier call made an order
-- under the same key.
pub place_direct_order_sold_out :
    (stamp : Stamp) (setting : Setting) (user key sku q : ℕ) (w : World)
    → IsKeyed w.db
    → verdict sku q w.db ≡ Verdict.denied Refusal.out_of_stock
    → place_direct_order stamp setting pessimistic user key sku q w
      ≡ (err Error.out_of_stock, record w { placed = PlacedLabel.out_of_stock ∷ w.placed })
unfolding place_direct_order direct_order_with pessimistic
place_direct_order_sold_out stamp setting user key sku q w keyed sold =
    ground (arith, pessimistic_reserve-verdict sku q w keyed, sold)
