-- ===== src/Orders/Ledger/Ending.antt =====
-- The three ways an order is cancelled (the buyer, the delayed job, the sweeper) keep every shelf's
-- total: what `cancelPendingOrder` frees is what `releaseStock` puts back.
use flash_core.Common.{
  ℕ, ◌+◌, ◌≡◌, refl, ap, true, Option, none, some, List, [], ◌∷◌, ◌==◌, is_some, arith,
}
use flash_core.Common.Table.{find, select, keep}
use flash_core.Store.{
  Db, World, Order, OrderItem, is_pending, CancelledBy, pure, Action, Result, ok, err, Error, on_db,
  ◌>>=◌, ◌>>◌,
}
use flash_core.Inventory.{Reserver, IsSound}
use flash_core.Inventory.Stock.{stock_of}
use flash_core.Orders.Creation.{has_order_id}
use flash_core.Orders.Cancellation.{
  CancelScope, CancelledItem, join_items, cancel_pending_order, release_all,
}
use flash_core.Orders.Expiry.{expire_with, cancel_expired}
use flash_core.Orders.Cancel.{count_cancelled}
use flash_core.Orders.Ledger.Held.{Shelf, held, returned, held_in-cancel, find-cancelled}
use flash_core.Orders.Ledger.Cancelling.{
  units_on, total_on, sale_stock_of, HasShelf, HaveShelves, Released, release_all-Released,
}
use flash_core.Orders.Ledger.Outcome.{
  HasOrderKeys, in_scope, cancelled_db, Cancels, cancel_pending_order-Cancels, in_scope-cancellable,
}

-- The foreign keys of `order_items` to the SKU or the sale SKU.
abbrev pub ItemsHaveShelves : List OrderItem → Db → Type 0
ItemsHaveShelves [] db = Unit
ItemsHaveShelves (i ∷ items) db =
    HasShelf i.sku_id i.sale_event_sku_id db × ItemsHaveShelves items db

-- The keys that the cancelling statements rely on.
pub record IsLinked (db : Db) : Type 0 where
  pub order_keys : HasOrderKeys db
  pub item_shelves : ItemsHaveShelves db.order_items db

pub join_items-HaveShelves :
    (orders : List Order) (id : ℕ) (items : List OrderItem) (db : Db)
    → ItemsHaveShelves items db
    → HaveShelves (join_items orders (select (λ i. i.order_id == id) items)) db
join_items-HaveShelves orders id [] db h = tt
join_items-HaveShelves orders id (i ∷ items) db h =
    ground (arith, join_items-HaveShelves orders id items db h.1)

in_scope-pending :
    (now : ℕ) (scope : CancelScope) (o : Order)
    → in_scope now scope o ≡ true
    → is_pending o.status ≡ true
in_scope-pending now CancelScope.expired o h = ground arith
in_scope-pending now (CancelScope.by_user user) o h = ground arith

-- Cancelling an order moves its units from the books to the rows.
pub cancelled-held :
    (shelf : Shelf) (now id : ℕ) (scope : CancelScope) (db : Db) (o : Order)
    → find (has_order_id id) db.orders ≡ some o
    → in_scope now scope o ≡ true
    → held shelf db
      ≡ held shelf (cancelled_db now id scope db)
        + returned shelf (
            join_items
              (cancelled_db now id scope db).orders
              (select (λ i. i.order_id == id) db.order_items))
cancelled-held shelf now id scope db o found hit =
    held_in-cancel shelf db.orders (cancelled_db now id scope db).orders id o db.order_items found
      (in_scope-pending now scope o hit)
      (λ j.
        find-cancelled now id scope db.orders o j found
          (in_scope-cancellable now id scope db o found hit))

pub cancelled-units_on :
    (shelf : Shelf) (now id : ℕ) (scope : CancelScope) (db : Db)
    → units_on shelf (cancelled_db now id scope db) ≡ units_on shelf db
unfolding units_on stock_of sale_stock_of
cancelled-units_on (Shelf.of_sku k) now id scope db = refl
cancelled-units_on (Shelf.of_sale k) now id scope db = refl

-- After the releases of a cancelled order the books are as before it was cancelled.
abbrev pub Settles : {A : Type 0} → Shelf → ℕ → Result A × World → Type 0
Settles shelf t (ok a, w') = total_on shelf w'.db ≡ t
Settles shelf t (err e, w') = e ≡ Error.query_failed

module _ (shelf : Shelf) (reserver : Reserver) (sound : IsSound reserver) (now : ℕ) where
  abbrev pub freed : ℕ → CancelScope → Db → List CancelledItem
  freed id scope db =
      join_items (cancelled_db now id scope db).orders
        (select (λ i. i.order_id == id) db.order_items)

  pub Released-Settles :
      (id : ℕ) (scope : CancelScope) (db : Db) (o : Order) (res : Result (Unit {0}) × World)
      → find (has_order_id id) db.orders ≡ some o
      → in_scope now scope o ≡ true
      → Released shelf (returned shelf (freed id scope db)) (cancelled_db now id scope db) res
      → Settles shelf (total_on shelf db) res
  Released-Settles id scope db o (ok a, u) found hit g =
      let kept : held shelf u.db ≡ held shelf (cancelled_db now id scope db) =
        rw (g.same_orders, g.same_items) refl in
      omega (
        arith,
        kept,
        g.units,
        cancelled-units_on shelf now id scope db,
        cancelled-held shelf now id scope db o found hit,
      )
  Released-Settles id scope db o (err e, u) found hit g = g

  pub shelves_kept :
      (id : ℕ) (scope : CancelScope) (items : List OrderItem) (db : Db)
      → ItemsHaveShelves items db
      → ItemsHaveShelves items (cancelled_db now id scope db)
  shelves_kept id scope [] db h = tt
  shelves_kept id scope (i ∷ items) db h =
      (kept i.sale_event_sku_id h.0, shelves_kept id scope items db h.1)
    where
      kept :
          (origin : Option ℕ)
          → HasShelf i.sku_id origin db
          → HasShelf i.sku_id origin (cancelled_db now id scope db)
      kept none there = there
      kept (some s) there = there

  pub release_freed-Released :
      (id : ℕ) (scope : CancelScope) (w : World)
      → IsLinked w.db
      → Released shelf (returned shelf (freed id scope w.db)) (cancelled_db now id scope w.db) (
          release_all reserver
            (freed id scope w.db)
            (record w { db = cancelled_db now id scope w.db }))
  release_freed-Released id scope w linked =
      release_all-Released shelf reserver sound (freed id scope w.db)
        (record w { db = cancelled_db now id scope w.db })
        (join_items-HaveShelves (cancelled_db now id scope w.db).orders id w.db.order_items
          (cancelled_db now id scope w.db)
          (shelves_kept id scope w.db.order_items w.db linked.item_shelves))

  -- Releasing what an order held, once it is cancelled.
  pub release_freed-Settles :
      (id : ℕ) (scope : CancelScope) (w : World) (o : Order)
      → IsLinked w.db
      → find (has_order_id id) w.db.orders ≡ some o
      → in_scope now scope o ≡ true
      → Settles shelf (total_on shelf w.db) (
          release_all reserver
            (freed id scope w.db)
            (record w { db = cancelled_db now id scope w.db }))
  release_freed-Settles id scope w o linked found hit =
      Released-Settles id scope w.db o _ found hit (release_freed-Released id scope w linked)

  -- The rest of a handler writes no table.
  then-Settles :
      {A : Type 0} (t : ℕ) (rest : Action World A) (w : World) (res : Result (Unit {0}) × World)
      → Settles shelf t res
      → ((v : World) → total_on shelf v.db ≡ t → Settles shelf t (rest v))
      → Settles shelf t (◌>>◌ (λ _. res) rest w)
  then-Settles t rest w (ok a, v) h go = go v h
  then-Settles t rest w (err e, v) h go = h

  expired_count-Settles :
      (t : ℕ) (v : World)
      → total_on shelf v.db ≡ t
      → Settles shelf t ((count_cancelled CancelledBy.expiry >> pure true) v)
  unfolding count_cancelled
  expired_count-Settles t v h = h

  expire_found-Settles :
      (id : ℕ) (w : World) (found : Option Order)
      → find (has_order_id id) w.db.orders ≡ found
      → is_some (keep (in_scope now CancelScope.expired) found) ≡ true
      → IsLinked w.db
      → Settles shelf (total_on shelf w.db) (
          expire_with reserver
            (some (freed id CancelScope.expired w.db))
            (record w { db = cancelled_db now id CancelScope.expired w.db }))
  unfolding expire_with
  expire_found-Settles id w none e hit linked = absurd (cc)
  expire_found-Settles id w (some o) e hit linked =
      then-Settles (total_on shelf w.db) (count_cancelled CancelledBy.expiry >> pure true)
        (record w { db = cancelled_db now id CancelScope.expired w.db }) _
        (release_freed-Settles id CancelScope.expired w o linked e (ground arith))
        (expired_count-Settles (total_on shelf w.db))

  expire_with-Settles :
      (id : ℕ) (w : World) (res : Result (Option (List CancelledItem)) × Db)
      → IsLinked w.db
      → Cancels now id CancelScope.expired w.db res
      → Settles shelf (total_on shelf w.db) (◌>>=◌ (on_db (λ _. res)) (expire_with reserver) w)
  expire_with-Settles id w (ok none, d) linked c = unfold expire_with in ap (total_on shelf) c.0
  expire_with-Settles id w (ok (some rows), d) linked c =
      rw (c.2, c.0) (expire_found-Settles id w _ refl c.1 linked)
  expire_with-Settles id w (err e, d) linked c = absurd c

  -- Where order ids are unique and every item's SKU or sale SKU has a row, cancelling an expired
  -- order with a strategy that keeps the contract, the UPDATE of whose releases runs, leaves the
  -- total of every shelf, its stock and what live orders hold, as it was; if it throws, another
  -- statement of a release has failed.
  pub cancel_expired-Settles :
      (id : ℕ) (w : World)
      → IsLinked w.db
      → Settles shelf (total_on shelf w.db) (cancel_expired reserver now id w)
  unfolding cancel_expired
  cancel_expired-Settles id w linked =
      expire_with-Settles id w (cancel_pending_order now id CancelScope.expired w.db) linked
        (cancel_pending_order-Cancels now id CancelScope.expired w.db linked.order_keys)
