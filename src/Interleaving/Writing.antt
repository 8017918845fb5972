-- ===== src/Interleaving/Writing.antt =====
-- What creating, cancelling and paying an order do to the keys and to the units that orders hold.
use flash_core.Common.{
  ℕ, ◌+◌, ◌≡◌, refl, true, Option, none, some, List, [], ◌∷◌, ◌++◌, ◌==◌, is_some, arith, ==_refl,
}
use flash_core.Common.Table.{
  find, exists_row, select, keep, find-update_where, find-append, count-append, find-none_count,
}
use flash_core.Store.{Db, Order, OrderItem}
use flash_core.Inventory.Stock.{stock_of}
use flash_core.Orders.{
  Stamp, NewOrder, has_order_id, new_order, new_item, CancelScope, CancelledItem, cancel_row,
  cancellable, join_items,
}
use flash_core.Orders.Ledger.{Shelf, held, returned, HasOrders, held_in-create}
use flash_core.Orders.Ledger.Creating.{with_order}
use flash_core.Orders.Ledger.Cancelling.{total_on, units_on, sale_stock_of, HasShelf, HaveShelves}
use flash_core.Orders.Ledger.Outcome.{in_scope, cancelled_db, cancelled_db-HasOrderKeys}
use flash_core.Orders.Ledger.Ending.{
  ItemsHaveShelves, cancelled-held, cancelled-units_on, join_items-HaveShelves,
}
use flash_core.Interleaving.Keys.{
  IsConsistent, SameShelves, SameShelves-refl, HasShelf-kept, ItemsHaveShelves-kept,
}
use flash_core.Interleaving.Statements.{on_shelf}

module _ (orders : List Order) (o : Order) where
  HasOrders-append_order :
      (items : List OrderItem) → HasOrders orders items → HasOrders (orders ++ (o ∷ [])) items
  HasOrders-append_order [] h = tt
  HasOrders-append_order (i ∷ items) h = (
    ground (arith, find-append (has_order_id i.order_id) orders (o ∷ []), h.0),
    HasOrders-append_order items h.1,
  )

HasOrders-append_item :
    (orders : List Order) (items : List OrderItem) (i : OrderItem)
    → HasOrders orders items
    → exists_row (has_order_id i.order_id) orders ≡ true
    → HasOrders orders (items ++ (i ∷ []))
HasOrders-append_item orders [] i h there = (there, tt)
HasOrders-append_item orders (x ∷ items) i h there =
    (h.0, HasOrders-append_item orders items i h.1 there)

ItemsHaveShelves-append :
    (items : List OrderItem) (i : OrderItem) (d : Db)
    → ItemsHaveShelves items d
    → HasShelf i.sku_id i.sale_event_sku_id d
    → ItemsHaveShelves (items ++ (i ∷ [])) d
ItemsHaveShelves-append [] i d h there = (there, tt)
ItemsHaveShelves-append (x ∷ items) i d h there = (h.0, ItemsHaveShelves-append items i d h.1 there)

module _ (stamp : Stamp) (input : NewOrder) (db : Db) where
  pub with_order-SameShelves : SameShelves db (with_order stamp input db)
  with_order-SameShelves =
      unfold with_order in SameShelves-refl db (with_order stamp input db) refl refl

  module _ (fresh : find (has_order_id stamp.order_id) db.orders ≡ none) where
    pub with_order-IsConsistent :
        HasShelf input.sku_id input.sale_event_sku_id db
        → IsConsistent db
        → IsConsistent (with_order stamp input db)
    with_order-IsConsistent there keys =
        unfold with_order in
        record {
          sku_keys = keys.sku_keys;
          sale_keys = keys.sale_keys;
          order_keys = λ j. ground (
            arith,
            keys.order_keys j,
            count-append (has_order_id j) db.orders (new_order stamp input ∷ []),
            find-none_count (has_order_id stamp.order_id) db.orders fresh,
          );
          order_rows =
              HasOrders-append_item (db.orders ++ (new_order stamp input ∷ [])) db.order_items
                (new_item stamp input)
                (HasOrders-append_order db.orders (new_order stamp input) db.order_items
                  keys.order_rows)
                (ground (
                  arith,
                  find-append (has_order_id stamp.order_id) db.orders (new_order stamp input ∷ []),
                  ==_refl stamp.order_id,
                ));
          item_shelves =
              ItemsHaveShelves-append db.order_items (new_item stamp input)
                (with_order stamp input db)
                (ItemsHaveShelves-kept db (with_order stamp input db) with_order-SameShelves
                  db.order_items keys.item_shelves)
                (HasShelf-kept db (with_order stamp input db) with_order-SameShelves input.sku_id
                  input.sale_event_sku_id there);
        }

    pub with_order-held :
        (shelf : Shelf)
        → IsConsistent db
        → held shelf (with_order stamp input db)
          ≡ held shelf db + on_shelf shelf input.sku_id input.sale_event_sku_id input.quantity
    unfolding with_order
    with_order-held shelf keys =
        held_in-create shelf db.orders (new_order stamp input) db.order_items (new_item stamp input)
          keys.order_rows fresh refl refl

  pub with_order-units :
      (shelf : Shelf) → units_on shelf (with_order stamp input db) ≡ units_on shelf db
  unfolding units_on stock_of sale_stock_of with_order
  with_order-units (Shelf.of_sku k) = refl
  with_order-units (Shelf.of_sale k) = refl

module _ (now id : ℕ) (scope : CancelScope) (db : Db) where
  pub cancelled_db-SameShelves : SameShelves db (cancelled_db now id scope db)
  cancelled_db-SameShelves = SameShelves-refl db (cancelled_db now id scope db) refl refl

  HasOrders-cancelled :
      (items : List OrderItem)
      → HasOrders db.orders items
      → HasOrders (cancelled_db now id scope db).orders items
  HasOrders-cancelled [] h = tt
  HasOrders-cancelled (i ∷ items) h = (
    ground (
      arith,
      h.0,
      find-update_where (cancellable now id scope) (has_order_id i.order_id) cancel_row (λ x. refl)
          db.orders,
    ),
    HasOrders-cancelled items h.1,
  )

  pub cancelled_db-IsConsistent : IsConsistent db → IsConsistent (cancelled_db now id scope db)
  cancelled_db-IsConsistent keys = record {
    sku_keys = keys.sku_keys;
    sale_keys = keys.sale_keys;
    order_keys = cancelled_db-HasOrderKeys now id scope db keys.order_keys;
    order_rows = HasOrders-cancelled db.order_items keys.order_rows;
    item_shelves =
        ItemsHaveShelves-kept db (cancelled_db now id scope db) cancelled_db-SameShelves
          db.order_items keys.item_shelves;
  }

  abbrev rows_of : List CancelledItem
  rows_of =
      join_items (cancelled_db now id scope db).orders
        (select (λ i. i.order_id == id) db.order_items)

  pub rows_of-HaveShelves : IsConsistent db → HaveShelves rows_of (cancelled_db now id scope db)
  rows_of-HaveShelves keys =
      join_items-HaveShelves (cancelled_db now id scope db).orders id db.order_items
        (cancelled_db now id scope db) (cancelled_db-IsConsistent keys).item_shelves

  -- What a cancelled order held is in the rows that are handed back.
  pub cancelled_db-total :
      (shelf : Shelf) (found : Option Order)
      → find (has_order_id id) db.orders ≡ found
      → is_some (keep (in_scope now scope) found) ≡ true
      → total_on shelf (cancelled_db now id scope db) + returned shelf rows_of ≡ total_on shelf db
  cancelled_db-total shelf none e hit = absurd (cc)
  cancelled_db-total shelf (some o) e hit = omega (
    arith,
    cancelled-held shelf now id scope db o e (ground arith),
    cancelled-units_on shelf now id scope db,
  )
