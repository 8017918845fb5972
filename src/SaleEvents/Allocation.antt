-- ===== src/SaleEvents/Allocation.antt =====
-- Publishing and closing an event move units between the SKUs and the event and lose none.
use flash_core.Common.{
  ℕ, zero, suc, ◌+◌, ◌-◌, ◌≤◌, ◌≡◌, refl, ◌∙◌, Bool, true, false, Option, none, some, List, [], ◌∷◌,
  ◌==◌, ◌&&◌, leb, not, if◌then◌else◌, arith,
}
use flash_core.Common.Table.{
  find, select, update_where, count_where, sum_by, find-and, find-none_count, find-some_count,
  update_where-and, sum-update_one, count-update_where,
}
use flash_core.Common.Listing.{Listed, select-Listed, Listed-update}
use flash_core.Store.{
  Db, SaleEvent, SaleSku, Result, ok, err, Error, Action, pure, transaction, ◌>>◌, ◌>>=◌,
}
use flash_core.Inventory.{has_id, take_units, take_stock, IsKeyed}
use flash_core.Inventory.Stock.{stock_of, units, stock_of-take_stock, take_stock-IsKeyed}
use flash_core.Orders.{has_sale_id}
use flash_core.SaleEvents.Publishing.{
  Publication, is_event, is_item_of, can_allocate, stocked, publish_item, publish_items,
  publish_flipped, publish_found, publish_in_transaction, publish, published_or_error,
}
use flash_core.SaleEvents.Closing.{is_leftover}

-- The units of SKU `k` that an item of an event has.
abbrev pub sale_units : ℕ → SaleSku → ℕ
sale_units k s = if s.sku_id == k then s.stock else 0

-- The units of SKU `k` that can be bought, directly or in an event.
abbrev pub available : ℕ → Db → ℕ
available k db = stock_of k db + sum_by (sale_units k) db.sale_skus

-- The keys of the tables.
abbrev pub HasSaleKeys : Db → Type 0
HasSaleKeys db = (j : ℕ) → count_where (has_sale_id j) db.sale_skus ≤ 1

abbrev same_id : SaleSku → SaleSku → Bool
same_id x s = has_sale_id x.id s

abbrev empty_item : ℕ → SaleSku → Bool
empty_item id s = is_item_of id s && s.stock == 0

-- The state after one round that did not throw.
abbrev allocated : SaleSku → Db → Db
allocated item db = record (take_stock item.sku_id item.allocated_stock db) {
  sale_skus = update_where (has_sale_id item.id) stocked db.sale_skus;
}

abbrev Allocates : SaleSku → Db → Result (Unit {0}) × Db → Type 0
Allocates item db (ok a, d) =
    (d ≡ allocated item db) × (item.allocated_stock ≤ stock_of item.sku_id db)
Allocates item db (err e, d) = e ≡ Error.not_enough_stock_to_allocate

publish_item-Allocates :
    (item : SaleSku) (db : Db) → IsKeyed db → Allocates item db (publish_item item db)
unfolding publish_item take_stock stock_of units
publish_item-Allocates item db keyed = ground (
  arith,
  keyed item.sku_id,
  find-and (has_id item.sku_id) (λ r. r.is_active && leb item.allocated_stock r.stock) db.skus,
  update_where-and (has_id item.sku_id) (λ r. r.is_active && leb item.allocated_stock r.stock)
      (take_units item.allocated_stock) db.skus,
  find-none_count (can_allocate item.sku_id item.allocated_stock) db.skus,
  find-some_count (can_allocate item.sku_id item.allocated_stock) db.skus,
)

stock_of-allocated :
    (k : ℕ) (item : SaleSku) (db : Db)
    → stock_of k (allocated item db)
      ≡ (if k == item.sku_id then stock_of k db - item.allocated_stock else stock_of k db)
stock_of-allocated k item db =
    unfold stock_of in stock_of-take_stock k item.sku_id item.allocated_stock db

allocated-IsKeyed : (item : SaleSku) (db : Db) → IsKeyed db → IsKeyed (allocated item db)
allocated-IsKeyed item db keyed = take_stock-IsKeyed item.sku_id item.allocated_stock db keyed

same_id_sym : (x y : SaleSku) → same_id x y ≡ same_id y x
same_id_sym x y = ground arith

allocated-HasSaleKeys :
    (item : SaleSku) (db : Db) → HasSaleKeys db → HasSaleKeys (allocated item db)
allocated-HasSaleKeys item db keys j =
    rw (count-update_where (has_sale_id item.id) (has_sale_id j) stocked (λ x. refl) db.sale_skus)
      (keys j)

-- What a call that ends well leaves of a total.
abbrev Keeps : {A : Type 0} → ℕ → ℕ → Result A × Db → Type 0
Keeps k t (ok a, d) = available k d ≡ t
Keeps k t (err e, d) = Unit

same_id_refl : (x : SaleSku) → same_id x x ≡ true
same_id_refl x = ground arith

-- The call's value is replaced by another.
then_pure-Keeps :
    {A : Type 0} (k t : ℕ) (p : A) (res : Result (Unit {0}) × Db)
    → Keeps k t res
    → Keeps k t (◌>>◌ {S = Db} (λ _. res) (pure p) res.1)
then_pure-Keeps k t p (ok a, d) h = h
then_pure-Keeps k t p (err e, d) h = tt

-- A transaction that throws leaves the total as it was.
transaction-available :
    {A : Type 0} (k : ℕ) (m : Action Db A) (db : Db)
    → Keeps k (available k db) (m db)
    → available k (transaction m db).1 ≡ available k db
transaction-available {A = A} k m db h = over (m db) h
  where
    over :
        (res : Result A × Db)
        → Keeps k (available k db) res
        → available k (transaction (λ _. res) db).1 ≡ available k db
    over (ok a, d) h = h
    over (err e, d) h = refl

not_zero : (n : ℕ) → (suc n == 0) ≡ false
not_zero n = ground arith

module _ (k : ℕ) where
  allocated-available :
      (item : SaleSku) (db : Db)
      → HasSaleKeys db
      → item.stock ≡ 0
      → find (has_sale_id item.id) db.sale_skus ≡ some item
      → item.allocated_stock ≤ stock_of item.sku_id db
      → available k (allocated item db) ≡ available k db
  allocated-available item db keys none_yet found enough = ground (
    arith,
    stock_of-allocated k item db,
    sum-update_one (has_sale_id item.id) stocked (sale_units k) db.sale_skus item (keys item.id)
        found,
  )

  module _ (id : ℕ) where
    -- A round that ends well is followed by the others.
    rounds-Keeps :
        (item : SaleSku) (items : List SaleSku) (db : Db) (t : ℕ) (res : Result (Unit {0}) × Db)
        → Allocates item db res
        → (item.allocated_stock ≤ stock_of item.sku_id db
            → Keeps k t (publish_items items (allocated item db)))
        → Keeps {A = Unit {0}} k t
            (elim res.0 [ ok a ↦ publish_items items res.1 | err x ↦ (err x, res.1) ])
    rounds-Keeps item items db t (ok a, d) h next = rw h.0 (next h.1)
    rounds-Keeps item items db t (err x, d) h next = tt

    publish_items-Keeps :
        (items : List SaleSku) (db : Db) (t : ℕ)
        → IsKeyed db
        → HasSaleKeys db
        → Listed same_id (empty_item id) items db.sale_skus
        → available k db ≡ t
        → Keeps k t (publish_items items db)
    unfolding publish_items
    publish_items-Keeps [] db t keyed keys l e = e
    publish_items-Keeps (item ∷ items) db t keyed keys l e =
        rounds-Keeps item items db t (publish_item item db) (publish_item-Allocates item db keyed)
          (λ enough.
            publish_items-Keeps items (allocated item db) t (allocated-IsKeyed item db keyed)
              (allocated-HasSaleKeys item db keys)
              (Listed-update same_id (empty_item id) stocked item items db.sale_skus (λ y z. refl)
                same_id_sym l.1.1.0 l.1.1.1)
              (allocated-available item db keys (ground (arith, l.0)) l.1.0 enough ∙ e))

    -- An event of which nothing is published yet has no units: its items are read out empty.
    select-empty_item :
        (table : List SaleSku)
        → count_where (is_leftover id) table ≡ 0
        → select (is_item_of id) table ≡ select (empty_item id) table
    select-empty_item [] h = refl
    select-empty_item (s ∷ table) h = ground (arith, select-empty_item table)

    publish_flipped-Keeps :
        (flipped : ℕ) (db : Db)
        → IsKeyed db
        → HasSaleKeys db
        → (1 ≤ flipped → count_where (is_leftover id) db.sale_skus ≡ 0)
        → Keeps k
            (available k db)
            (publish_flipped (select (is_item_of id) db.sale_skus) flipped db)
    unfolding publish_flipped
    publish_flipped-Keeps zero db keyed keys draft = refl
    publish_flipped-Keeps (suc n) db keyed keys draft =
        let empty : select (is_item_of id) db.sale_skus ≡ select (empty_item id) db.sale_skus =
          select-empty_item db.sale_skus (draft (omega arith)) in
        rw (empty, not_zero n)
          (then_pure-Keeps k (available k db) Publication.published _ (
            publish_items-Keeps (select (empty_item id) db.sale_skus) db (available k db) keyed keys
              (select-Listed same_id (empty_item id) same_id_refl same_id_sym db.sale_skus
                (λ x. keys x.id))
              refl))

    publish_found-Keeps :
        (event : Option SaleEvent) (db : Db)
        → IsKeyed db
        → HasSaleKeys db
        → (1 ≤ count_where (λ e. is_event id e && not e.is_published) db.sale_events
            → count_where (is_leftover id) db.sale_skus ≡ 0)
        → Keeps k (available k db) (publish_found id (select (is_item_of id) db.sale_skus) event db)
    unfolding publish_found stock_of
    publish_found-Keeps none db keyed keys draft = refl
    publish_found-Keeps (some e) db keyed keys draft =
        publish_flipped-Keeps
          (count_where (λ e. is_event id e && not e.is_published) db.sale_events)
          (record db {
            sale_events =
                update_where (λ e. is_event id e && not e.is_published)
                  (λ e. record e { is_published = true }) db.sale_events;
          })
          keyed keys draft

-- Where SKUs and items of events have unique ids, and the event has no units before it is
-- published, publishing it, whatever it comes to, keeps the units of every SKU that can be
-- bought: what leaves the stock is in the event.
pub publish-available :
    (k id : ℕ) (db : Db)
    → IsKeyed db
    → HasSaleKeys db
    → (1 ≤ count_where (λ e. is_event id e && not e.is_published) db.sale_events
        → count_where (is_leftover id) db.sale_skus ≡ 0)
    → available k (publish id db).1 ≡ available k db
unfolding publish publish_in_transaction published_or_error
publish-available k id db keyed keys draft =
    answered (publish_in_transaction id db)
    ∙ transaction-available k
        (λ d.
          publish_found id (select (is_item_of id) d.sale_skus) (find (is_event id) d.sale_events)
            d)
        db (publish_found-Keeps k id (find (is_event id) db.sale_events) db keyed keys draft)
  where
    answered :
        (res : Result Publication × Db)
        → available k (◌>>=◌ (λ _. res) published_or_error res.1).1 ≡ available k res.1
    answered (ok Publication.published, d) = refl
    answered (ok Publication.already_published, d) = refl
    answered (ok Publication.no_event, d) = refl
    answered (err e, d) = refl
