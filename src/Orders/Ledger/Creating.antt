-- ===== src/Orders/Ledger/Creating.antt =====
-- `createOrder`, `finishOrder` and `placeDirectOrder` against the ledger of a SKU.
use flash_core.Common.{
  ℕ, ◌+◌, ◌≡◌, ◌⊎◌, refl, ap, ◌∙◌, inl, true, Option, none, some, [], ◌∷◌, ◌++◌, ◌==◌,
  if◌then◌else◌, is_none, arith,
}
use flash_core.Common.Table.{find, find-or_none}
use flash_core.Store.{Db, World, Order, Action, Result, ok, err, Error, on_db, ◌>>=◌}
use flash_core.Inventory.{
  Reserver, Reserved, Refusal, IsSound, IsKeyed, Grants, take_stock, give_stock, Verdict, verdict,
}
use flash_core.Inventory.Stock.{
  stock_of, has_sku, stock_of-take_stock, stock_of-give_stock, has_sku-take_stock, granted-stock_of,
}
use flash_core.Orders.Creation.{
  Stamp, NewOrder, has_order_id, has_key, new_order, new_item, new_event, create_order,
}
use flash_core.Orders.Place.{
  Setting, Placement, finish_with, finish_order, direct_order_with, place_direct_order,
}
use flash_core.Orders.Ledger.Held.{Shelf, held, HasOrders, held_in-create}

-- The database with the three new rows.
unfoldable pub with_order : Stamp → NewOrder → Db → Db
with_order stamp input db = record db {
  orders = db.orders ++ (new_order stamp input ∷ []);
  order_items = db.order_items ++ (new_item stamp input ∷ []);
  outbox = db.outbox ++ (new_event stamp (new_order stamp input) ∷ []);
}

abbrev pub IsUnused : Stamp → NewOrder → Db → Type 0
IsUnused stamp input db =
    (find (has_order_id stamp.order_id) db.orders ≡ none)
    × (find (has_key input.user_id input.idempotency_key) db.orders ≡ none)

-- All three rows and a new key, or nothing.
abbrev pub Creates : Stamp → NewOrder → Db → Result (Option Order) × Db → Type 0
Creates stamp input db (ok (some o), db') =
    (o ≡ new_order stamp input)
    × (db' ≡ with_order stamp input db)
    × (find (has_order_id stamp.order_id) db.orders ≡ none)
    × (find (has_key input.user_id input.idempotency_key) db.orders ≡ none)
Creates stamp input db (ok none, db') = db' ≡ db
Creates stamp input db (err e, db') = (db' ≡ db) × (e ≡ Error.query_failed)

-- Creating an order is atomic: its order, item and outbox rows are written together, under an
-- unused id and an unused idempotency key, or the database is as before.
pub create_order-Creates :
    (stamp : Stamp) (input : NewOrder) (db : Db)
    → Creates stamp input db (create_order stamp input db)
unfolding create_order with_order
create_order-Creates stamp input db = ground (
  arith,
  find-or_none (has_order_id stamp.order_id) (has_key input.user_id input.idempotency_key)
      db.orders,
)

-- The units of SKU `k`: in stock, or held by orders.
abbrev pub total : ℕ → Db → ℕ
total k db = stock_of k db + held (Shelf.of_sku k) db

pub with_order-total :
    (k : ℕ) (stamp : Stamp) (input : NewOrder) (db : Db)
    → HasOrders db.orders db.order_items
    → find (has_order_id stamp.order_id) db.orders ≡ none
    → total k (with_order stamp input db)
      ≡ total k db
        + (if is_none input.sale_event_sku_id
            then (if input.sku_id == k then input.quantity else 0)
            else 0)
unfolding with_order stock_of
with_order-total k stamp input db linked fresh = ground (
  arith,
  held_in-create (Shelf.of_sku k) db.orders (new_order stamp input) db.order_items
      (new_item stamp input) linked fresh refl refl,
)

-- The units that a statement failing after the reservation leaves out of the books.
abbrev pub lost : ℕ → ℕ → ℕ → ℕ
lost k sku q = if sku == k then q else 0

module _ (shelf : Shelf) (sku q : ℕ) (db : Db) where
  pub held-give_stock : held shelf (give_stock sku q db) ≡ held shelf db
  unfolding give_stock
  held-give_stock = refl

  pub held-take_stock : held shelf (take_stock sku q db) ≡ held shelf db
  unfolding take_stock
  held-take_stock = refl

pub take_stock-HasOrders :
    (sku q : ℕ) (db : Db)
    → HasOrders db.orders db.order_items
    → HasOrders (take_stock sku q db).orders (take_stock sku q db).order_items
unfolding take_stock
take_stock-HasOrders sku q db h = h

module _ (k sku q : ℕ) (db : Db) where
  pub total-give_stock :
      has_sku sku db ≡ true → total k (give_stock sku q db) ≡ total k db + lost k sku q
  total-give_stock there =
      ground
        (arith, stock_of-give_stock k sku q db there, held-give_stock (Shelf.of_sku k) sku q db)

  pub total-take_stock :
      (price : ℕ)
      → verdict sku q db ≡ Verdict.granted price
      → total k (take_stock sku q db) + lost k sku q ≡ total k db
  total-take_stock price grant = ground (
    arith,
    stock_of-take_stock k sku q db,
    granted-stock_of sku q price db grant,
    held-take_stock (Shelf.of_sku k) sku q db,
  )

-- Against the total `t` that the books should come back to.
abbrev pub Books : ℕ → ℕ → ℕ → ℕ → Result Placement × World → Type 0
Books k sku q t (ok p, w') = total k w'.db ≡ t
Books k sku q t (err e, w') =
    (total k w'.db ≡ t) ⊎ ((e ≡ Error.query_failed) × (total k w'.db + lost k sku q ≡ t))

module _ (stamp : Stamp) (setting : Setting) (reserver : Reserver) (sound : IsSound reserver) where
  finish_with-duplicate :
      (k t : ℕ) (input : NewOrder) (w : World)
      → has_sku input.sku_id w.db ≡ true
      → total k w.db + lost k input.sku_id input.quantity ≡ t
      → Books k input.sku_id input.quantity t
          (finish_with setting input (reserver.release input.sku_id input.quantity) none w)
  unfolding finish_with
  finish_with-duplicate k t input w there books = ground (
    arith,
    sound.release_gives input.sku_id input.quantity w,
    total-give_stock k input.sku_id input.quantity w.db there,
  )

  finish_with-created :
      (k t : ℕ) (input : NewOrder) (release : Action World (Unit {0})) (o : Order) (w : World)
      → total k w.db ≡ t
      → Books k input.sku_id input.quantity t (finish_with setting input release (some o) w)
  unfolding finish_with
  finish_with-created k t input release o w books = ground arith

  finish_after-Books :
      (k t : ℕ) (input : NewOrder) (w : World) (res : Result (Option Order) × Db)
      → input.sale_event_sku_id ≡ none
      → HasOrders w.db.orders w.db.order_items
      → has_sku input.sku_id w.db ≡ true
      → total k w.db + lost k input.sku_id input.quantity ≡ t
      → Creates stamp input w.db res
      → Books k input.sku_id input.quantity t (
          ◌>>=◌
            (on_db (λ _. res))
            (finish_with setting input (reserver.release input.sku_id input.quantity))
            w)
  finish_after-Books k t input w (ok (some o), d) direct linked there books made =
      finish_with-created k t input _ o (record w { db = d })
        (ground (arith, with_order-total k stamp input w.db linked))
  finish_after-Books k t input w (ok none, d) direct linked there books made =
      finish_with-duplicate k t input (record w { db = d }) (rw made there) (rw made books)
  finish_after-Books k t input w (err e, d) direct linked there books made = ground arith

  -- A reservation of `q` units is behind us: they go into an order, or back into the stock.
  finish_order-Books :
      (k t : ℕ) (input : NewOrder) (w : World)
      → input.sale_event_sku_id ≡ none
      → HasOrders w.db.orders w.db.order_items
      → has_sku input.sku_id w.db ≡ true
      → total k w.db + lost k input.sku_id input.quantity ≡ t
      → Books k input.sku_id input.quantity t
          (finish_order stamp setting input (reserver.release input.sku_id input.quantity) w)
  unfolding finish_order
  finish_order-Books k t input w direct linked there books =
      finish_after-Books k t input w (create_order stamp input w.db) direct linked there books
        (create_order-Creates stamp input w.db)

  direct_order_with-Books :
      (k user key sku q t : ℕ) (answer : Reserved) (w v : World)
      → HasOrders w.db.orders w.db.order_items
      → total k w.db ≡ t
      → Grants sku q w (ok answer, v)
      → Books k sku q t (direct_order_with stamp setting reserver user key sku q answer v)
  unfolding direct_order_with
  direct_order_with-Books k user key sku q t (Reserved.refused Refusal.sku_not_found) w v linked
        books g =
      ground arith
  direct_order_with-Books k user key sku q t (Reserved.refused Refusal.out_of_stock) w v linked
        books g =
      ground arith
  direct_order_with-Books k user key sku q t (Reserved.reserved price attempts) w v linked books
        (granted, moved) =
      let same : v.db ≡ take_stock sku q w.db = ap (λ (u : World). u.db) moved in
      finish_order-Books k t _ v refl (rw same (take_stock-HasOrders sku q w.db linked))
        (rw (same, has_sku-take_stock sku sku q w.db) (granted-stock_of sku q price w.db granted).1)
        (rw same (total-take_stock k sku q w.db price granted ∙ books))

  after_reserve-Books :
      (k user key sku q : ℕ) (w : World) (res : Result Reserved × World)
      → HasOrders w.db.orders w.db.order_items
      → Grants sku q w res
      → Books k sku q
          (total k w.db)
          (◌>>=◌ (λ _. res) (direct_order_with stamp setting reserver user key sku q) w)
  after_reserve-Books k user key sku q w (ok answer, v) linked g =
      direct_order_with-Books k user key sku q (total k w.db) answer w v linked refl g
  after_reserve-Books k user key sku q w (err e, v) linked g =
      inl (ap (λ (u : World). total k u.db) g)

  -- `placeDirectOrder` with any strategy that keeps the contract, the UPDATE of whose releases runs:
  -- the units of each SKU, in stock and in live orders, are as many after the call as before. Only
  -- where a statement fails after the reservation are the `q` reserved units in neither.
  pub place_direct_order-total :
      (k user key sku q : ℕ) (w : World)
      → IsKeyed w.db
      → HasOrders w.db.orders w.db.order_items
      → Books k sku q (total k w.db) (place_direct_order stamp setting reserver user key sku q w)
  unfolding place_direct_order
  place_direct_order-total k user key sku q w keyed linked =
      after_reserve-Books k user key sku q w (reserver.reserve sku q w) linked
        (sound.reserve_grants sku q w keyed)
