-- ===== src/Orders/History.antt =====
-- `listMyOrders` of order.service.ts and `listOrdersOfUser` of order.repository.ts.
use flash_core.Common.{ℕ, Bool, Option, ◌==◌}
use flash_core.Store.{Db, Order, Action}
use flash_core.Pages.{Text, Codec, Page, list_page}

abbrev pub is_order_by : ℕ → Order → Bool
is_order_by user o = o.user_id == user

unfoldable pub list_my_orders : Codec → ℕ → Option Text → ℕ → Action Db (Page Order)
unfolding list_page
list_my_orders codec user cursor limit db =
    (list_page codec (λ o. o.created_at) (λ o. o.id) (is_order_by user) cursor limit db.orders, db)
