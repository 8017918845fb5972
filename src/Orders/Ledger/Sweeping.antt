-- ===== src/Orders/Ledger/Sweeping.antt =====
-- `sweepExpired` (order.expiry.service.ts) against the ledger of a SKU.
use flash_core.Common.{
  ℕ, ◌+◌, ◌≡◌, refl, ap, ◌∙◌, sym, Bool, true, Option, none, some, List, [], ◌∷◌, is_some,
  if◌then◌else◌, arith,
}
use mathlib.Core.Path.{subst}
use flash_core.Common.Table.{find, keep}
use flash_core.Store.{
  Db, World, Order, OrderItem, CancelledBy, Action, Result, ok, err, Error, pure, on_db, ◌>>=◌,
  ◌>>◌,
}
use flash_core.Inventory.{Reserver, IsSound}
use flash_core.Orders.Creation.{has_order_id}
use flash_core.Orders.Cancellation.{CancelScope, CancelledItem, cancel_pending_order}
use flash_core.Orders.Cancel.{count_cancelled}
use flash_core.Orders.Expiry.{
  expire_with, cancel_expired, sweep_each, sweep_expired, find_expired_pending_order_ids,
}
use flash_core.Orders.Ledger.Held.{Shelf, returned}
use flash_core.Orders.Ledger.Cancelling.{total_on, HasShelf, Gives, Released}
use flash_core.Orders.Ledger.Outcome.{
  in_scope, cancelled_db, Cancels, cancel_pending_order-Cancels, cancelled_db-HasOrderKeys,
}
use flash_core.Orders.Ledger.Ending.{
  IsLinked, ItemsHaveShelves, freed, shelves_kept, release_freed-Released, Released-Settles,
}

-- The total of the shelf is `t` and the keys hold; if it threw, a statement of a release has failed.
abbrev pub Keeps : {A : Type 0} → Shelf → ℕ → Result A × World → Type 0
Keeps shelf t (ok a, w') = (total_on shelf w'.db ≡ t) × IsLinked w'.db
Keeps shelf t (err e, w') = e ≡ Error.query_failed

module _ (shelf : Shelf) (reserver : Reserver) (sound : IsSound reserver) (now : ℕ) where
  shelves_given :
      (items : List OrderItem) (gained : ℕ) (db d : Db)
      → Gives shelf gained db d
      → ItemsHaveShelves items db
      → ItemsHaveShelves items d
  shelves_given [] gained db d g h = tt
  shelves_given (i ∷ items) gained db d g h =
      (kept i.sale_event_sku_id h.0, shelves_given items gained db d g h.1)
    where
      kept : (origin : Option ℕ) → HasShelf i.sku_id origin db → HasShelf i.sku_id origin d
      kept none there = g.same_skus i.sku_id ∙ there
      kept (some s) there = g.same_sales s ∙ there

  Gives-IsLinked :
      (id gained : ℕ) (db d : Db)
      → IsLinked db
      → Gives shelf gained (cancelled_db now id CancelScope.expired db) d
      → IsLinked d
  Gives-IsLinked id gained db d linked g = record {
    order_keys =
        rw g.same_orders
          (cancelled_db-HasOrderKeys now id CancelScope.expired db linked.order_keys);
    item_shelves =
        subst (λ items. ItemsHaveShelves items d) (sym g.same_items)
          (shelves_given db.order_items gained (cancelled_db now id CancelScope.expired db) d g (
            shelves_kept shelf reserver sound now id CancelScope.expired db.order_items db
              linked.item_shelves));
  }

  Released-Keeps :
      (id : ℕ) (w : World) (o : Order) (res : Result (Unit {0}) × World)
      → IsLinked w.db
      → find (has_order_id id) w.db.orders ≡ some o
      → in_scope now CancelScope.expired o ≡ true
      → Released shelf
          (returned shelf (freed shelf reserver sound now id CancelScope.expired w.db))
          (cancelled_db now id CancelScope.expired w.db)
          res
      → (start : World)
      → Keeps shelf
          (total_on shelf w.db)
          (◌>>◌ (λ s. res) (count_cancelled CancelledBy.expiry >> pure true) start)
  unfolding count_cancelled
  Released-Keeps id w o (ok a, v) linked found hit g start = (
    Released-Settles shelf reserver sound now id CancelScope.expired w.db o (ok a, v) found hit g,
    Gives-IsLinked id _ w.db v.db linked g,
  )
  Released-Keeps id w o (err e, v) linked found hit g start = g

  found-Keeps :
      (id : ℕ) (w : World) (found : Option Order)
      → find (has_order_id id) w.db.orders ≡ found
      → is_some (keep (in_scope now CancelScope.expired) found) ≡ true
      → IsLinked w.db
      → Keeps shelf (total_on shelf w.db) (
          expire_with reserver
            (some (freed shelf reserver sound now id CancelScope.expired w.db))
            (record w { db = cancelled_db now id CancelScope.expired w.db }))
  unfolding expire_with
  found-Keeps id w none e hit linked = absurd (cc)
  found-Keeps id w (some o) e hit linked =
      Released-Keeps id w o _ linked e (ground arith)
        (release_freed-Released shelf reserver sound now id CancelScope.expired w linked)
        (record w { db = cancelled_db now id CancelScope.expired w.db })

  expire_with-Keeps :
      (id : ℕ) (w : World) (res : Result (Option (List CancelledItem)) × Db)
      → IsLinked w.db
      → Cancels now id CancelScope.expired w.db res
      → Keeps shelf (total_on shelf w.db) (◌>>=◌ (on_db (λ s. res)) (expire_with reserver) w)
  expire_with-Keeps id w (ok none, d) linked c =
      unfold expire_with in (ap (total_on shelf) c.0, rw c.0 linked)
  expire_with-Keeps id w (ok (some rows), d) linked c =
      rw (c.2, c.0) (found-Keeps id w _ refl c.1 linked)
  expire_with-Keeps id w (err e, d) linked c = absurd c

  cancel_expired-Keeps :
      (id : ℕ) (w : World)
      → IsLinked w.db
      → Keeps shelf (total_on shelf w.db) (cancel_expired reserver now id w)
  unfolding cancel_expired
  cancel_expired-Keeps id w linked =
      expire_with-Keeps id w (cancel_pending_order now id CancelScope.expired w.db) linked
        (cancel_pending_order-Cancels now id CancelScope.expired w.db linked.order_keys)

  next-Keeps :
      (t : ℕ) (res : Result Bool × World) (rest : Bool → Action World ℕ) (start : World)
      → Keeps shelf t res
      → ((done : Bool) (v : World)
          → total_on shelf v.db ≡ t
          → IsLinked v.db
          → Keeps shelf t (rest done v))
      → Keeps shelf t (◌>>=◌ (λ s. res) rest start)
  next-Keeps t (ok done, v) rest start h go = go done v h.0 h.1
  next-Keeps t (err e, v) rest start h go = h

  sweep_each-Keeps :
      (ids : List ℕ) (cancelled t : ℕ) (w : World)
      → total_on shelf w.db ≡ t
      → IsLinked w.db
      → Keeps shelf t (sweep_each reserver now ids cancelled w)
  unfolding sweep_each
  sweep_each-Keeps [] cancelled t w h linked = (h, linked)
  sweep_each-Keeps (id ∷ ids) cancelled t w h linked =
      next-Keeps t (cancel_expired reserver now id w)
        (λ done. sweep_each reserver now ids (if done then cancelled + 1 else cancelled)) w
        (rw (sym h) (cancel_expired-Keeps id w linked))
        (λ done v k l. sweep_each-Keeps ids (if done then cancelled + 1 else cancelled) t v k l)

  -- Where order ids are unique and every item's SKU or sale SKU has a row, a sweep over the expired orders
  -- with a strategy that keeps the contract, the UPDATE of whose releases runs, leaves the total of every
  -- shelf, its stock and what live orders hold, as it was, and these keys hold after it; if it throws,
  -- another statement of a release has failed.
  pub sweep_expired-Keeps :
      (node_now : ℕ) (w : World)
      → IsLinked w.db
      → Keeps shelf (total_on shelf w.db) (sweep_expired reserver node_now now w)
  unfolding sweep_expired find_expired_pending_order_ids
  sweep_expired-Keeps node_now w linked = sweep_each-Keeps _ 0 (total_on shelf w.db) w refl linked
