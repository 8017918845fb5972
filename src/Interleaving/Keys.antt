-- ===== src/Interleaving/Keys.antt =====
-- The keys and foreign keys that the statements rely on, and what keeps them.
use mathlib.Core.Path.{subst}
use flash_core.Common.{ℕ, ◌≤◌, ◌≡◌, refl, ◌∙◌, sym, Option, none, some, List, [], ◌∷◌, arith}
use flash_core.Common.Table.{find, exists_row, count_where}
use flash_core.Store.{Db, Order, OrderItem}
use flash_core.Inventory.{IsKeyed, has_id}
use flash_core.Inventory.Stock.{has_sku}
use flash_core.Orders.{has_order_id, has_sale_id, CancelledItem}
use flash_core.Orders.Ledger.{Shelf, is_live, held, held_in, HasOrders}
use flash_core.Orders.Ledger.Cancelling.{has_sale, HasShelf, HaveShelves}
use flash_core.Orders.Ledger.Outcome.{HasOrderKeys}
use flash_core.Orders.Ledger.Ending.{ItemsHaveShelves}
use flash_core.Interleaving.Calls.{Call}

-- Unique ids of SKUs, sale SKUs and orders, and the foreign keys of the order items.
pub record IsConsistent (db : Db) : Type 0 where
  pub sku_keys : IsKeyed db
  pub sale_keys : (j : ℕ) → count_where (has_sale_id j) db.sale_skus ≤ 1
  pub order_keys : HasOrderKeys db
  pub order_rows : HasOrders db.orders db.order_items
  pub item_shelves : ItemsHaveShelves db.order_items db

-- The SKUs and the sale SKUs are the same rows by their ids.
pub record SameShelves (db d : Db) : Type 0 where
  pub skus : (j : ℕ) → has_sku j d ≡ has_sku j db
  pub sales : (j : ℕ) → has_sale j d ≡ has_sale j db
  pub sku_counts : (j : ℕ) → count_where (has_id j) d.skus ≡ count_where (has_id j) db.skus
  pub sale_counts :
      (j : ℕ) → count_where (has_sale_id j) d.sale_skus ≡ count_where (has_sale_id j) db.sale_skus

-- The orders are the same by their ids, and live or not as before, with the same items.
pub record SameOrders (db d : Db) : Type 0 where
  pub items : d.order_items ≡ db.order_items
  pub lives :
      (j : ℕ) → is_live (find (has_order_id j) d.orders) ≡ is_live (find (has_order_id j) db.orders)
  pub rows : (j : ℕ) → exists_row (has_order_id j) d.orders ≡ exists_row (has_order_id j) db.orders
  pub counts :
      (j : ℕ) → count_where (has_order_id j) d.orders ≡ count_where (has_order_id j) db.orders

-- The shelf of what a call has in flight has a row.
abbrev pub IsBacked : Call → Db → Type 0
IsBacked (Call.reserving user key sku q) db = Unit
IsBacked (Call.claiming user key sale q) db = Unit
IsBacked (Call.taking user key sale q) db = Unit
IsBacked (Call.creating input) db = HasShelf input.sku_id input.sale_event_sku_id db
IsBacked (Call.cancelling id scope) db = Unit
IsBacked (Call.releasing rows) db = HaveShelves rows db
IsBacked (Call.unclaiming sale user q rows) db = HaveShelves rows db
IsBacked (Call.settling input) db = Unit
IsBacked Call.ended db = Unit
IsBacked (Call.stopped call) db = IsBacked call db

module _ (db d : Db) (same : SameShelves db d) where
  pub HasShelf-kept : (sku : ℕ) (origin : Option ℕ) → HasShelf sku origin db → HasShelf sku origin d
  HasShelf-kept sku none there = same.skus sku ∙ there
  HasShelf-kept sku (some s) there = same.sales s ∙ there

  pub HaveShelves-same : (rows : List CancelledItem) → HaveShelves rows db → HaveShelves rows d
  HaveShelves-same [] h = tt
  HaveShelves-same (r ∷ rows) h =
      (HasShelf-kept r.sku_id r.sale_event_sku_id h.0, HaveShelves-same rows h.1)

  pub ItemsHaveShelves-kept :
      (items : List OrderItem) → ItemsHaveShelves items db → ItemsHaveShelves items d
  ItemsHaveShelves-kept [] h = tt
  ItemsHaveShelves-kept (i ∷ items) h =
      (HasShelf-kept i.sku_id i.sale_event_sku_id h.0, ItemsHaveShelves-kept items h.1)

  pub IsBacked-kept : (call : Call) → IsBacked call db → IsBacked call d
  IsBacked-kept (Call.reserving user key sku q) h = tt
  IsBacked-kept (Call.claiming user key sale q) h = tt
  IsBacked-kept (Call.taking user key sale q) h = tt
  IsBacked-kept (Call.creating input) h = HasShelf-kept input.sku_id input.sale_event_sku_id h
  IsBacked-kept (Call.cancelling id scope) h = tt
  IsBacked-kept (Call.releasing rows) h = HaveShelves-same rows h
  IsBacked-kept (Call.unclaiming sale user q rows) h = HaveShelves-same rows h
  IsBacked-kept (Call.settling input) h = tt
  IsBacked-kept Call.ended h = tt
  IsBacked-kept (Call.stopped call) h = IsBacked-kept call h

  HasOrders-kept :
      (orders orders' : List Order) (items : List OrderItem)
      → ((j : ℕ) → exists_row (has_order_id j) orders' ≡ exists_row (has_order_id j) orders)
      → HasOrders orders items
      → HasOrders orders' items
  HasOrders-kept orders orders' [] rows h = tt
  HasOrders-kept orders orders' (i ∷ items) rows h =
      (rows i.order_id ∙ h.0, HasOrders-kept orders orders' items rows h.1)

  pub IsConsistent-kept : SameOrders db d → IsConsistent db → IsConsistent d
  IsConsistent-kept orders keys = record {
    sku_keys = λ j. rw (same.sku_counts j) (keys.sku_keys j);
    sale_keys = λ j. rw (same.sale_counts j) (keys.sale_keys j);
    order_keys = λ j. rw (orders.counts j) (keys.order_keys j);
    order_rows =
        rw orders.items
          (HasOrders-kept db.orders d.orders db.order_items orders.rows keys.order_rows);
    item_shelves =
        subst (λ items. ItemsHaveShelves items d) (sym orders.items)
          (ItemsHaveShelves-kept db.order_items keys.item_shelves);
  }

held_in-same :
    (shelf : Shelf) (orders orders' : List Order) (items : List OrderItem)
    → ((j : ℕ) → is_live (find (has_order_id j) orders') ≡ is_live (find (has_order_id j) orders))
    → held_in shelf orders' items ≡ held_in shelf orders items
unfolding held_in
held_in-same shelf orders orders' [] lives = refl
held_in-same shelf orders orders' (i ∷ items) lives =
    ground (arith, lives i.order_id, held_in-same shelf orders orders' items lives)

-- Which of the orders are pending or paid does not matter to what they hold.
pub held-kept : (shelf : Shelf) (db d : Db) → SameOrders db d → held shelf d ≡ held shelf db
held-kept shelf db d same = rw same.items (held_in-same shelf db.orders d.orders _ same.lives)

pub SameShelves-refl :
    (db d : Db) → d.skus ≡ db.skus → d.sale_skus ≡ db.sale_skus → SameShelves db d
SameShelves-refl db d skus sales = record {
  skus = λ j. rw skus refl;
  sales = λ j. rw sales refl;
  sku_counts = λ j. rw skus refl;
  sale_counts = λ j. rw sales refl;
}

pub SameOrders-refl :
    (db d : Db) → d.orders ≡ db.orders → d.order_items ≡ db.order_items → SameOrders db d
SameOrders-refl db d orders items = record {
  items = items;
  lives = λ j. rw orders refl;
  rows = λ j. rw orders refl;
  counts = λ j. rw orders refl;
}
