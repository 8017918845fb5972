-- ===== src/Orders/Reads.antt =====
-- `findOrderOfUser` and `findOrderStatusOfUser` of order.repository.ts.
use mathlib.Core.Option
use flash_core.Common.{ℕ, Bool, Option, List, ◌&&◌, ◌==◌}
use flash_core.Common.Table.{find, select}
use flash_core.Store.{Db, Order, OrderStatus, OrderItem, Action, gets}
use flash_core.Orders.Creation.{has_order_id}

abbrev pub is_order_of : ℕ → ℕ → Order → Bool
is_order_of id user o = has_order_id id o && o.user_id == user

-- The order with its items.
unfoldable pub find_order_of_user : ℕ → ℕ → Action Db (Option (Order × List OrderItem))
find_order_of_user id user = gets λ db.
    Option.map (λ o. (o, select (λ i. i.order_id == o.id) db.order_items))
      (find (is_order_of id user) db.orders)

unfoldable pub find_order_status_of_user : ℕ → ℕ → Action Db (Option OrderStatus)
find_order_status_of_user id user =
    gets λ db. Option.map (λ o. o.status) (find (is_order_of id user) db.orders)
