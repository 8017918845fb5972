-- ===== src/Orders/Cancellation.antt =====
-- `cancelPendingOrder` of order.repository.ts and `releaseStock` of order.expiry.service.ts.
use flash_core.Common.{ℕ, Bool, Option, none, some, List, [], ◌∷◌, ◌&&◌, leb, ◌==◌, if◌then◌else◌}
use flash_core.Common.Table.{find, select, count_where, update_where}
use flash_core.Store.{
  Db, World, Order, OrderStatus, OrderItem, is_pending, Action, pure, gets, modify, transaction,
  on_db, ◌>>=◌, ◌>>◌,
}
use flash_core.Inventory.{Reserver}
use flash_core.Orders.Creation.{has_order_id}
use flash_core.Orders.Quota.{increment_sale_event_stock, release_user_quota}

pub data CancelScope : Type 0 where
  expired : CancelScope
  by_user : ℕ → CancelScope

-- A row of `CancelledOrderItems`.
pub record CancelledItem : Type 0 where
  pub sku_id : ℕ
  pub quantity : ℕ
  pub sale_event_sku_id : Option ℕ
  pub user_id : ℕ

-- The WHERE clause of the `UPDATE` of each scope, `now` being PostgreSQL's clock.
abbrev pub cancellable : ℕ → ℕ → CancelScope → Order → Bool
cancellable now id CancelScope.expired o =
    has_order_id id o && (is_pending o.status && leb o.expires_at now)
cancellable now id (CancelScope.by_user user) o =
    has_order_id id o && (is_pending o.status && o.user_id == user)

abbrev pub cancel_row : Order → Order
cancel_row o = record o { status = OrderStatus.cancelled }

abbrev pub joined_item : OrderItem → Order → CancelledItem
joined_item i o = record {
  sku_id = i.sku_id;
  quantity = i.quantity;
  sale_event_sku_id = i.sale_event_sku_id;
  user_id = o.user_id;
}

-- One row of `order_items i JOIN orders o ON o.id = i.order_id`, put before the others.
abbrev pub join_row : OrderItem → Option Order → List CancelledItem → List CancelledItem
join_row i none rows = rows
join_row i (some o) rows = joined_item i o ∷ rows

abbrev pub join_items : List Order → List OrderItem → List CancelledItem
join_items orders [] = []
join_items orders (i ∷ items) =
    join_row i (find (has_order_id i.order_id) orders) (join_items orders items)

-- What follows the `UPDATE` that changed `updated` rows.
unfoldable pub read_items : ℕ → ℕ → Action Db (Option (List CancelledItem))
read_items id updated =
    if updated == 0
    then pure none
    else gets (λ db. some (join_items db.orders (select (λ i. i.order_id == id) db.order_items)))

unfoldable pub cancel_pending_order : ℕ → ℕ → CancelScope → Action Db (Option (List CancelledItem))
unfolding read_items
cancel_pending_order now id scope = transaction do
  updated ← gets (λ db. count_where (cancellable now id scope) db.orders)
  modify (λ db. record db { orders = update_where (cancellable now id scope) cancel_row db.orders })
  read_items id updated

-- `releaseStock`: to the event and the quota, or to the SKU.
unfoldable pub release_to : Reserver → CancelledItem → Option ℕ → Action World (Unit {0})
unfolding increment_sale_event_stock release_user_quota
release_to reserver item (some sale) = do
  on_db (increment_sale_event_stock sale item.quantity)
  on_db (release_user_quota sale item.user_id item.quantity)
release_to reserver item none = reserver.release item.sku_id item.quantity

unfoldable pub release_stock : Reserver → CancelledItem → Action World (Unit {0})
unfolding release_to
release_stock reserver item = release_to reserver item item.sale_event_sku_id

-- `for (const item of items) await releaseStock(...)`.
unfoldable pub release_all : Reserver → List CancelledItem → Action World (Unit {0})
unfolding release_stock
release_all reserver [] = pure tt
release_all reserver (item ∷ items) = release_stock reserver item >> release_all reserver items
