-- ===== src/Orders/Cancel.antt =====
-- `cancelMyOrder` and `getMyOrder` of order.service.ts; an order id arrives as text.
use flash_core.Common.{ℕ, Bool, true, false, Option, none, some, List, ◌∷◌}
use flash_core.Store.{
  World, Order, OrderStatus, OrderItem, CancelledBy, Action, Error, pure, throw, modify, on_db,
  ◌>>=◌, ◌>>◌,
}
use flash_core.Inventory.{Reserver}
use flash_core.Orders.Uuid.{parse_uuid}
use flash_core.Orders.Cancellation.{CancelScope, CancelledItem, cancel_pending_order, release_all}
use flash_core.Orders.Reads.{find_order_of_user, find_order_status_of_user}

-- An order with its items, as `findOrderOfUser` gives it.
abbrev pub OrderView : Type 0
OrderView = Order × List OrderItem

pub record Cancellation : Type 0 where
  pub order : OrderView
  pub cancelled : Bool

unfoldable pub found_order : Option OrderView → Action World OrderView
found_order none = throw Error.order_not_found
found_order (some view) = pure view

unfoldable pub get_order : ℕ → ℕ → Action World OrderView
unfolding find_order_of_user found_order
get_order id user = do view ← on_db (find_order_of_user id user); found_order view

-- An id that is no UUID is no order of anybody.
unfoldable pub with_uuid {ℓ} : {B : Type ℓ} → (ℕ → B) → B → Option ℕ → B
with_uuid f none_of_it none = none_of_it
with_uuid f none_of_it (some id) = f id

unfoldable pub get_my_order : List ℕ → ℕ → Action World OrderView
unfolding with_uuid get_order parse_uuid
get_my_order text user =
    with_uuid (λ id. get_order id user) (throw Error.order_not_found) (parse_uuid text)

-- No row changed: not the user's, paid, or cancelled before.
unfoldable pub not_cancelled : ℕ → ℕ → Option OrderStatus → Action World Cancellation
unfolding get_order
not_cancelled id user none = throw Error.order_not_found
not_cancelled id user (some OrderStatus.paid) = throw Error.order_not_cancellable
not_cancelled id user (some OrderStatus.cancelled) = do
  view ← get_order id user
  pure (record { order = view; cancelled = false })
not_cancelled id user (some OrderStatus.pending) = do
  view ← get_order id user
  pure (record { order = view; cancelled = false })

unfoldable pub count_cancelled : CancelledBy → Action World (Unit {0})
count_cancelled by = modify λ w. record w { cancelled = by ∷ w.cancelled }

unfoldable pub cancel_with :
    Reserver → ℕ → ℕ → Option (List CancelledItem) → Action World Cancellation
unfolding find_order_status_of_user not_cancelled release_all count_cancelled get_order
cancel_with reserver id user none = do
  existing ← on_db (find_order_status_of_user id user)
  not_cancelled id user existing
cancel_with reserver id user (some items) = do
  release_all reserver items
  count_cancelled CancelledBy.user
  view ← get_order id user
  pure (record { order = view; cancelled = true })

unfoldable pub cancel_order : Reserver → ℕ → ℕ → ℕ → Action World Cancellation
unfolding cancel_with
cancel_order reserver now id user = do
  items ← on_db (cancel_pending_order now id (CancelScope.by_user user))
  cancel_with reserver id user items

unfoldable pub cancel_my_order : Reserver → ℕ → List ℕ → ℕ → Action World Cancellation
unfolding cancel_order with_uuid parse_uuid
cancel_my_order reserver now text user =
    with_uuid (λ id. cancel_order reserver now id user) (throw Error.order_not_found)
      (parse_uuid text)
