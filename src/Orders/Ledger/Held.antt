-- ===== src/Orders/Ledger/Held.antt =====
-- The units that live orders hold, and what a new order, a cancelled one and a paid one do to them.
use flash_core.Common.{
  ℕ, ◌+◌, ◌≡◌, refl, inl, inr, Bool, true, false, Option, none, some, List, [], ◌∷◌, ◌++◌, ◌==◌,
  if◌then◌else◌, arith, Option-cases, ==_refl,
}
use flash_core.Common.Table.{
  find, select, update_where, exists_row, sum_by, find-append, find-update_where, find-holds,
  sum-append,
}
use flash_core.Store.{Db, Order, OrderItem, OrderStatus, is_cancelled, is_pending}
use flash_core.Orders.Creation.{has_order_id}
use flash_core.Orders.Cancellation.{CancelScope, CancelledItem, cancellable, cancel_row, join_items}

-- Which items count: those of a SKU bought at its own price, or those of a sale SKU.
pub data Shelf : Type 0 where
  of_sku of_sale : ℕ → Shelf

abbrev pub is_on : Shelf → ℕ → Option ℕ → Bool
is_on (Shelf.of_sku k) sku none = sku == k
is_on (Shelf.of_sku k) sku (some s) = false
is_on (Shelf.of_sale k) sku none = false
is_on (Shelf.of_sale k) sku (some s) = s == k

abbrev pub is_live : Option Order → Bool
is_live none = false
is_live (some o) = elim (is_cancelled o.status) [ true ↦ false | false ↦ true ]

abbrev pub held_by : Shelf → OrderItem → Option Order → ℕ
held_by shelf i o =
    if is_live o then (if is_on shelf i.sku_id i.sale_event_sku_id then i.quantity else 0) else 0

-- The units of `shelf` in orders that are not cancelled.
unfoldable pub held_in : Shelf → List Order → List OrderItem → ℕ
held_in shelf orders items =
    sum_by (λ i. held_by shelf i (find (has_order_id i.order_id) orders)) items

abbrev pub held : Shelf → Db → ℕ
held shelf db = held_in shelf db.orders db.order_items

-- The foreign key of `order_items`.
abbrev pub HasOrders : List Order → List OrderItem → Type 0
HasOrders orders [] = Unit
HasOrders orders (i ∷ items) =
    (exists_row (has_order_id i.order_id) orders ≡ true) × HasOrders orders items

module _ (shelf : Shelf) where
  held_in-append_order :
      (orders : List Order) (o : Order) (items : List OrderItem)
      → HasOrders orders items
      → held_in shelf (orders ++ (o ∷ [])) items ≡ held_in shelf orders items
  unfolding held_in
  held_in-append_order orders o [] h = refl
  held_in-append_order orders o (i ∷ items) h = ground (
    arith,
    find-append (has_order_id i.order_id) orders (o ∷ []),
    held_in-append_order orders o items h.1,
  )

  -- A new order that is pending holds its item.
  pub held_in-create :
      (orders : List Order) (o : Order) (items : List OrderItem) (i : OrderItem)
      → HasOrders orders items
      → find (has_order_id o.id) orders ≡ none
      → i.order_id ≡ o.id
      → o.status ≡ OrderStatus.pending
      → held_in shelf (orders ++ (o ∷ [])) (items ++ (i ∷ []))
        ≡ held_in shelf orders items
          + (if is_on shelf i.sku_id i.sale_event_sku_id then i.quantity else 0)
  unfolding held_in
  held_in-create orders o items i h fresh mine pending = ground (
    arith,
    sum-append (λ i. held_by shelf i (find (has_order_id i.order_id) (orders ++ (o ∷ [])))) items
        (i ∷ []),
    held_in-append_order orders o items h,
    find-append (has_order_id i.order_id) orders (o ∷ []),
    ==_refl o.id,
  )

  -- The units of `shelf` in the rows that a cancellation hands back.
  abbrev pub returned_row : CancelledItem → ℕ
  returned_row r = if is_on shelf r.sku_id r.sale_event_sku_id then r.quantity else 0

  abbrev pub returned : List CancelledItem → ℕ
  returned rows = sum_by returned_row rows

  -- Cancelling one order that was live frees exactly the units of the rows handed back.
  pub held_in-cancel :
      (orders orders' : List Order) (id : ℕ) (o : Order) (items : List OrderItem)
      → find (has_order_id id) orders ≡ some o
      → is_pending o.status ≡ true
      → ((j : ℕ)
          → find (has_order_id j) orders'
            ≡ (if j == id then some (cancel_row o) else find (has_order_id j) orders))
      → held_in shelf orders items
        ≡ held_in shelf orders' items
          + returned (join_items orders' (select (λ i. i.order_id == id) items))
  unfolding held_in
  held_in-cancel orders orders' id o [] found pending after = refl
  held_in-cancel orders orders' id o (i ∷ items) found pending after =
      ground (arith, after i.order_id, held_in-cancel orders orders' id o items found pending after)

cancellable-has_id :
    (now id j : ℕ) (scope : CancelScope) (r : Order)
    → has_order_id j r ≡ true
    → (j == id) ≡ false
    → cancellable now id scope r ≡ false
cancellable-has_id now id j CancelScope.expired r mine ne = ground arith
cancellable-has_id now id j (CancelScope.by_user user) r mine ne = ground arith

-- The rows after the `UPDATE` of a cancellation, by id.
pub find-cancelled :
    (now id : ℕ) (scope : CancelScope) (orders : List Order) (o : Order) (j : ℕ)
    → find (has_order_id id) orders ≡ some o
    → cancellable now id scope o ≡ true
    → find (has_order_id j) (update_where (cancellable now id scope) cancel_row orders)
      ≡ (if j == id then some (cancel_row o) else find (has_order_id j) orders)
find-cancelled now id scope orders o j found hit =
    elim (Option-cases (find (has_order_id j) orders)) [
      | inl e ↦ ground (
        arith,
        find-update_where (cancellable now id scope) (has_order_id j) cancel_row (λ x. refl) orders,
        find-holds (has_order_id id) orders o found,
      )
      | inr (r, e) ↦ ground (
        arith,
        find-update_where (cancellable now id scope) (has_order_id j) cancel_row (λ x. refl) orders,
        find-holds (has_order_id id) orders o found,
        find-holds (has_order_id j) orders r e,
        cancellable-has_id now id j scope r (find-holds (has_order_id j) orders r e),
      )
    ]
