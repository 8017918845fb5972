-- ===== src/Orders/Ledger/Withdrawal.antt =====
-- `cancelMyOrder` (order.service.ts) against the ledger of a SKU.
use flash_core.Common.{
  ℕ, ◌≡◌, ◌⊎◌, inl, inr, refl, ap, ◌∙◌, Bool, true, false, Option, none, some, List, ◌∷◌, is_some,
  arith,
}
use flash_core.Common.Table.{find, keep}
use flash_core.Store.{
  Db, World, Order, OrderStatus, CancelledBy, Action, Result, ok, err, Error, pure, on_db, ◌>>=◌,
  ◌>>◌,
}
use flash_core.Inventory.{Reserver, IsSound}
use flash_core.Orders.Creation.{has_order_id}
use flash_core.Orders.Cancellation.{CancelScope, CancelledItem, cancel_pending_order}
use flash_core.Orders.Reads.{find_order_of_user, find_order_status_of_user}
use flash_core.Orders.Cancel.{
  OrderView, Cancellation, found_order, get_order, not_cancelled, count_cancelled, cancel_with,
  cancel_order,
}
use flash_core.Orders.Ledger.Held.{Shelf}
use flash_core.Orders.Ledger.Cancelling.{total_on}
use flash_core.Orders.Ledger.Outcome.{in_scope, cancelled_db, Cancels, cancel_pending_order-Cancels}
use flash_core.Orders.Ledger.Ending.{IsLinked, Settles, freed, release_freed-Settles}

-- The total of the shelf is `t`, unless a statement of a release has failed.
abbrev pub Withdraws : {A : Type 0} → Shelf → ℕ → Result A × World → Type 0
Withdraws shelf t (r, w') = (total_on shelf w'.db ≡ t) ⊎ (r ≡ err Error.query_failed)

found_order-World : (view : Option OrderView) (w : World) → (found_order view w).1 ≡ w
unfolding found_order
found_order-World none w = refl
found_order-World (some view) w = refl

get_order-World : (id user : ℕ) (w : World) → (get_order id user w).1 ≡ w
unfolding get_order find_order_of_user
get_order-World id user w = found_order-World _ w

viewed-World :
    {A B : Type 0} (f : A → B) (res : Result A × World) (w : World)
    → (◌>>=◌ (λ s. res) (λ a. pure (f a)) w).1 ≡ res.1
viewed-World f (ok a, v) w = refl
viewed-World f (err e, v) w = refl

abbrev as_found : Bool → OrderView → Cancellation
as_found cancelled view = record { order = view; cancelled = cancelled }

-- An order that was not cancelled is only read.
not_cancelled-World :
    (id user : ℕ) (status : Option OrderStatus) (w : World) → (not_cancelled id user status w).1 ≡ w
unfolding not_cancelled
not_cancelled-World id user none w = refl
not_cancelled-World id user (some OrderStatus.paid) w = refl
not_cancelled-World id user (some OrderStatus.cancelled) w =
    viewed-World (as_found false) (get_order id user w) w ∙ get_order-World id user w
not_cancelled-World id user (some OrderStatus.pending) w =
    viewed-World (as_found false) (get_order id user w) w ∙ get_order-World id user w

module _ (shelf : Shelf) (reserver : Reserver) (sound : IsSound reserver) (now user : ℕ) where
  -- After the releases: the count, and the order as it is now.
  counted_view : ℕ → Action World Cancellation
  counted_view id = do
    count_cancelled CancelledBy.user
    view ← get_order id user
    pure (record { order = view; cancelled = true })

  counted_view-Withdraws :
      (id t : ℕ) (v : World) → total_on shelf v.db ≡ t → Withdraws shelf t (counted_view id v)
  unfolding counted_view count_cancelled
  counted_view-Withdraws id t v h =
      let counted : World = record v { cancelled = CancelledBy.user ∷ v.cancelled } in
      inl (
        ap (λ x. total_on shelf x.db)
          (viewed-World (as_found true) (get_order id user counted) counted
            ∙ get_order-World id user counted)
        ∙ h)

  released-Withdraws :
      (id t : ℕ) (w : World) (res : Result (Unit {0}) × World)
      → Settles shelf t res
      → Withdraws shelf t (◌>>◌ (λ s. res) (counted_view id) w)
  released-Withdraws id t w (ok a, v) h = counted_view-Withdraws id t v h
  released-Withdraws id t w (err e, v) h = inr (ap err h)

  found-Withdraws :
      (id : ℕ) (w : World) (found : Option Order)
      → find (has_order_id id) w.db.orders ≡ found
      → is_some (keep (in_scope now (CancelScope.by_user user)) found) ≡ true
      → IsLinked w.db
      → Withdraws shelf (total_on shelf w.db) (
          cancel_with reserver id user
            (some (freed shelf reserver sound now id (CancelScope.by_user user) w.db))
            (record w { db = cancelled_db now id (CancelScope.by_user user) w.db }))
  unfolding cancel_with counted_view
  found-Withdraws id w none e hit linked = absurd (cc)
  found-Withdraws id w (some o) e hit linked =
      released-Withdraws id (total_on shelf w.db)
        (record w { db = cancelled_db now id (CancelScope.by_user user) w.db }) _
        (release_freed-Settles shelf reserver sound now id (CancelScope.by_user user) w o linked e
          (ground arith))

  cancel_with-Withdraws :
      (id : ℕ) (w : World) (res : Result (Option (List CancelledItem)) × Db)
      → IsLinked w.db
      → Cancels now id (CancelScope.by_user user) w.db res
      → Withdraws shelf
          (total_on shelf w.db)
          (◌>>=◌ (on_db (λ s. res)) (cancel_with reserver id user) w)
  cancel_with-Withdraws id w (ok none, d) linked c = inl (
      unfold cancel_with find_order_status_of_user in
      (ap (λ x. total_on shelf x.db) (not_cancelled-World id user _ (record w { db = d }))
        ∙ ap (total_on shelf) c.0))
  cancel_with-Withdraws id w (ok (some rows), d) linked c =
      rw (c.2, c.0) (found-Withdraws id w _ refl c.1 linked)
  cancel_with-Withdraws id w (err e, d) linked c = absurd c

  -- Where order ids are unique and every item's SKU or sale SKU has a row, a buyer's cancellation with a
  -- strategy that keeps the contract, the UPDATE of whose releases runs, leaves the total of every shelf,
  -- its stock and what live orders hold, as it was, whether there was an order to cancel or not; only
  -- where another statement of a release has failed may it not.
  pub cancel_order-Withdraws :
      (id : ℕ) (w : World)
      → IsLinked w.db
      → Withdraws shelf (total_on shelf w.db) (cancel_order reserver now id user w)
  unfolding cancel_order
  cancel_order-Withdraws id w linked =
      cancel_with-Withdraws id w (cancel_pending_order now id (CancelScope.by_user user) w.db)
        linked
        (cancel_pending_order-Cancels now id (CancelScope.by_user user) w.db linked.order_keys)
