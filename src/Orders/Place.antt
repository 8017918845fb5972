-- ===== src/Orders/Place.antt =====
-- `placeOrder` of order.service.ts, with the timers and the log lines left out.
use flash_core.Common.{
  ℕ, ◌+◌, ◌*◌, Bool, true, false, Option, none, some, ◌∷◌, ◌&&◌, leb, is_some, not, if◌then◌else◌,
}
use flash_core.Store.{
  World, Order, PlacedLabel, Action, Error, pure, throw, modify, on_db, ◌>>=◌, ◌>>◌,
}
use flash_core.Inventory.{Reserver, Reserved, Refusal}
use flash_core.Orders.Creation.{Stamp, NewOrder, create_order, find_order_by_idempotency_key}
use flash_core.Orders.Quota.{
  claim_user_quota, release_user_quota, decrement_sale_event_stock, increment_sale_event_stock,
  Diagnosis, diagnose_sale_event_sku,
}

-- What one call meets: `ORDER_HOLD_MINUTES`, Node's clock, PostgreSQL's clock at two statements,
-- and whether `queue.add` succeeds.
pub record Setting : Type 0 where
  pub hold_minutes : ℕ
  pub node_now : ℕ
  pub reserved_at : ℕ
  pub diagnosed_at : ℕ
  pub queue_up : Bool

pub record CreateOrderDto : Type 0 where
  pub sku_id : Option ℕ
  pub sale_event_sku_id : Option ℕ
  pub quantity : ℕ

-- `createOrderSchema` (order.dto.ts): 1 to 5 units of exactly one of the two.
unfoldable pub is_valid_dto : CreateOrderDto → Bool
is_valid_dto dto =
    (leb 1 dto.quantity && leb dto.quantity 5)
    && (if is_some dto.sku_id
        then not (is_some dto.sale_event_sku_id)
        else is_some dto.sale_event_sku_id)

-- What the caller gets: the order, and whether this call made it.
pub record Placement : Type 0 where
  pub order : Order
  pub created : Bool

unfoldable pub count_placed : PlacedLabel → Action World (Unit {0})
count_placed label = modify λ w. record w { placed = label ∷ w.placed }

-- `queue.add`, whose failure is caught and logged.
unfoldable pub schedule_expiry : Setting → Order → Action World (Unit {0})
schedule_expiry setting order =
    if setting.queue_up
    then modify (λ w. record w {
      expire_jobs =
          record { order_id = order.id; delay = setting.hold_minutes * 60 * 1000 } ∷ w.expire_jobs;
    })
    else pure tt

unfoldable pub existing_order : Option Order → Action World Placement
unfolding count_placed
existing_order none = throw Error.internal
existing_order (some order) =
    count_placed PlacedLabel.duplicate >> pure (record { order = order; created = false })

-- The two ends of `finishOrder`: the key was there already, or the order is new.
unfoldable pub finish_with :
    Setting → NewOrder → Action World (Unit {0}) → Option Order → Action World Placement
unfolding existing_order schedule_expiry count_placed find_order_by_idempotency_key
finish_with setting input on_duplicate none = do
  on_duplicate
  existing ← on_db (find_order_by_idempotency_key input.user_id input.idempotency_key)
  existing_order existing
finish_with setting input on_duplicate (some order) = do
  schedule_expiry setting order
  count_placed PlacedLabel.created
  pure (record { order = order; created = true })

unfoldable pub finish_order :
    Stamp → Setting → NewOrder → Action World (Unit {0}) → Action World Placement
unfolding finish_with
finish_order stamp setting input on_duplicate = do
  order ← on_db (create_order stamp input)
  finish_with setting input on_duplicate order

abbrev pub expiry_of : Setting → ℕ
expiry_of setting = setting.node_now + setting.hold_minutes * 60 * 1000

-- What `placeDirectOrder` does with the answer of the reserver.
unfoldable pub direct_order_with :
    Stamp → Setting → Reserver → ℕ → ℕ → ℕ → ℕ → Reserved → Action World Placement
unfolding finish_order count_placed
direct_order_with stamp setting reserver user key sku q (Reserved.refused Refusal.sku_not_found) =
    count_placed PlacedLabel.sku_not_found >> throw Error.sku_not_found
direct_order_with stamp setting reserver user key sku q (Reserved.refused Refusal.out_of_stock) =
    count_placed PlacedLabel.out_of_stock >> throw Error.out_of_stock
direct_order_with stamp setting reserver user key sku q (Reserved.reserved price attempts) =
    finish_order stamp setting
      (record {
        user_id = user;
        idempotency_key = key;
        sku_id = sku;
        quantity = q;
        unit_price_vnd = price;
        expires_at = expiry_of setting;
        sale_event_sku_id = none;
      })
      (reserver.release sku q)

unfoldable pub place_direct_order :
    Stamp → Setting → Reserver → ℕ → ℕ → ℕ → ℕ → Action World Placement
unfolding direct_order_with
place_direct_order stamp setting reserver user key sku q = do
  answer ← reserver.reserve sku q
  direct_order_with stamp setting reserver user key sku q answer

unfoldable pub sale_refusal : Diagnosis → Action World Placement
unfolding count_placed
sale_refusal Diagnosis.not_found =
    count_placed PlacedLabel.sku_not_found >> throw Error.sku_not_found
sale_refusal Diagnosis.not_open =
    count_placed PlacedLabel.sale_not_open >> throw Error.sale_not_open
sale_refusal Diagnosis.out_of_stock =
    count_placed PlacedLabel.out_of_stock >> throw Error.out_of_stock

-- What `placeSaleEventOrder` does once the quota is claimed and the stock was asked for.
unfoldable pub sale_order_with :
    Stamp → Setting → ℕ → ℕ → ℕ → ℕ → Option (ℕ × ℕ) → Action World Placement
unfolding release_user_quota increment_sale_event_stock diagnose_sale_event_sku sale_refusal
    finish_order
sale_order_with stamp setting user key sale q none = do
  on_db (release_user_quota sale user q)
  reason ← on_db (diagnose_sale_event_sku setting.diagnosed_at sale)
  sale_refusal reason
sale_order_with stamp setting user key sale q (some (price, sku)) =
    finish_order stamp setting
      (record {
        user_id = user;
        idempotency_key = key;
        sku_id = sku;
        quantity = q;
        unit_price_vnd = price;
        expires_at = expiry_of setting;
        sale_event_sku_id = some sale;
      })
      (do on_db (increment_sale_event_stock sale q); on_db (release_user_quota sale user q))

unfoldable pub sale_order_claimed : Stamp → Setting → ℕ → ℕ → ℕ → ℕ → Bool → Action World Placement
unfolding sale_order_with count_placed decrement_sale_event_stock
sale_order_claimed stamp setting user key sale q false =
    count_placed PlacedLabel.per_user_limit >> throw Error.per_user_limit_reached
sale_order_claimed stamp setting user key sale q true = do
  row ← on_db (decrement_sale_event_stock setting.reserved_at sale q)
  sale_order_with stamp setting user key sale q row

unfoldable pub place_sale_event_order : Stamp → Setting → ℕ → ℕ → ℕ → ℕ → Action World Placement
unfolding claim_user_quota sale_order_claimed
place_sale_event_order stamp setting user key sale q = do
  claimed ← on_db (claim_user_quota sale user q)
  sale_order_claimed stamp setting user key sale q claimed

-- The schema leaves one of the two; a missing `skuId` would be a null id, which no row has.
unfoldable pub place_order_of :
    Stamp → Setting → Reserver → ℕ → ℕ → ℕ → Option ℕ → Option ℕ → Action World Placement
unfolding place_sale_event_order place_direct_order
place_order_of stamp setting reserver user key q sku (some sale) =
    place_sale_event_order stamp setting user key sale q
place_order_of stamp setting reserver user key q (some sku) none =
    place_direct_order stamp setting reserver user key sku q
place_order_of stamp setting reserver user key q none none = throw Error.internal

unfoldable pub place_order :
    Stamp → Setting → Reserver → ℕ → ℕ → CreateOrderDto → Action World Placement
unfolding place_order_of
place_order stamp setting reserver user key dto =
    place_order_of stamp setting reserver user key dto.quantity dto.sku_id dto.sale_event_sku_id
