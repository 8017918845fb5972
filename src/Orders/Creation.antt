-- ===== src/Orders/Creation.antt =====
-- `createOrder` of order.repository.ts: the order, its item and the outbox row in one transaction.
use flash_core.Common.{
  ℕ, ◌*◌, ◌^◌, ◌-◌, Bool, Option, none, some, [], ◌∷◌, ◌++◌, ◌&&◌, ◌||◌, not, leb, ◌==◌,
  if◌then◌else◌,
}
use flash_core.Common.Table.{find, exists_row}
use flash_core.Store.{
  Db, Order, OrderStatus, OrderItem, OutboxEvent, OutboxStatus, EventType, Action, Error, pure,
  throw, throw_if, gets, modify, transaction, catch, is_unique_violation, ◌>>=◌, ◌>>◌,
}

-- What PostgreSQL and Prisma generate for the new rows.
pub record Stamp : Type 0 where
  pub order_id : ℕ
  pub outbox_id : ℕ
  pub created_at : ℕ

pub record NewOrder : Type 0 where
  pub user_id : ℕ
  pub idempotency_key : ℕ
  pub sku_id : ℕ
  pub quantity : ℕ
  pub unit_price_vnd : ℕ
  pub expires_at : ℕ
  pub sale_event_sku_id : Option ℕ

-- The column type of amounts: a value beyond it is refused, not wrapped.
abbrev pub int4_max : ℕ
int4_max = 2 ^ 31 - 1

abbrev pub has_order_id : ℕ → Order → Bool
has_order_id k o = o.id == k

abbrev pub has_key : ℕ → ℕ → Order → Bool
has_key user key o = o.user_id == user && o.idempotency_key == key

abbrev pub new_order : Stamp → NewOrder → Order
new_order stamp input = record {
  id = stamp.order_id;
  user_id = input.user_id;
  status = OrderStatus.pending;
  total_vnd = input.unit_price_vnd * input.quantity;
  idempotency_key = input.idempotency_key;
  expires_at = input.expires_at;
  created_at = stamp.created_at;
  payment_intent_id = none;
}

-- `tx.order.create`: the type of `total_vnd`, the CHECK `total_vnd > 0`, then the unique keys
-- `id` and `(user_id, idempotency_key)`.
unfoldable pub insert_order : Stamp → NewOrder → Action Db Order
insert_order stamp input = do
  throw_if (not (leb (input.unit_price_vnd * input.quantity) int4_max)) Error.query_failed
  throw_if (input.unit_price_vnd * input.quantity == 0) Error.query_failed
  taken ← gets λ db.
      exists_row
        (λ o. has_order_id stamp.order_id o || has_key input.user_id input.idempotency_key o)
        db.orders
  throw_if taken Error.unique_violation
  modify λ db. record db { orders = db.orders ++ (new_order stamp input ∷ []) }
  pure (new_order stamp input)

abbrev pub new_item : Stamp → NewOrder → OrderItem
new_item stamp input = record {
  order_id = stamp.order_id;
  sku_id = input.sku_id;
  sale_event_sku_id = input.sale_event_sku_id;
  quantity = input.quantity;
  unit_price_vnd = input.unit_price_vnd;
}

-- `tx.orderItem.create`; its two CHECKs hold whenever the total is positive.
unfoldable pub insert_item : Stamp → NewOrder → Action Db (Unit {0})
insert_item stamp input =
    modify λ db. record db { order_items = db.order_items ++ (new_item stamp input ∷ []) }

abbrev pub new_event : Stamp → Order → OutboxEvent
new_event stamp order = record {
  id = stamp.outbox_id;
  event_type = EventType.order_placed;
  aggregate_id = order.id;
  user_id = order.user_id;
  total_vnd = order.total_vnd;
  status = OutboxStatus.waiting;
  attempts = 0;
  created_at = stamp.created_at;
  dispatched_at = none;
}

unfoldable pub insert_event : Stamp → Order → Action Db (Unit {0})
insert_event stamp order = do
  taken ← gets λ db. exists_row (λ e. e.id == stamp.outbox_id) db.outbox
  throw_if taken Error.unique_violation
  modify λ db. record db { outbox = db.outbox ++ (new_event stamp order ∷ []) }

unfoldable pub create_order : Stamp → NewOrder → Action Db (Option Order)
unfolding insert_order insert_item insert_event
create_order stamp input =
    catch
      (transaction do
        order ← insert_order stamp input
        insert_item stamp input
        insert_event stamp order
        pure (some order))
      (λ e. if is_unique_violation e then pure none else throw e)

-- `findOrderByIdempotencyKey`. The items that it includes only pass through to the answer, and are
-- left out.
unfoldable pub find_order_by_idempotency_key : ℕ → ℕ → Action Db (Option Order)
find_order_by_idempotency_key user key = gets λ db. find (has_key user key) db.orders
