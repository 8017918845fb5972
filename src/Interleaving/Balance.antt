-- ===== src/Interleaving/Balance.antt =====
-- One statement of one call against the books of a shelf: its stock, what live orders hold, and
-- what the call has in flight.
use mathlib.Core.Path.{subst}
use flash_core.Common.{◌+◌, ◌≡◌, refl, sym, ap, arith}
use flash_core.Store.{Db}
use flash_core.Inventory.Stock.{stock_of}
use flash_core.Orders.Ledger.{Shelf}
use flash_core.Orders.Ledger.Cancelling.{sale_stock_of, units_on, total_on}
use flash_core.Interleaving.Calls.{Call, Moment, in_flight}
use flash_core.Interleaving.Keys.{
  IsConsistent, SameShelves, SameOrders, IsBacked, IsBacked-kept, IsConsistent-kept, held-kept,
  SameShelves-refl, SameOrders-refl,
}
use flash_core.Interleaving.Paying.{Pays}

-- What a statement keeps: the books, the keys, the shelves, and a row for all that is in flight.
pub record Advances (shelf : Shelf) (call : Call) (db : Db) (res : Call × Db) : Type 0 where
  pub balance :
      total_on shelf res.1 + in_flight shelf res.0 ≡ total_on shelf db + in_flight shelf call
  pub keys : IsConsistent res.1
  pub shelves : SameShelves db res.1
  pub backed : IsBacked res.0 res.1

module _ (shelf : Shelf) (m : Moment) (db : Db) (keys : IsConsistent db) where
  SameShelves-id : SameShelves db db
  SameShelves-id = SameShelves-refl db db refl refl

  -- A statement that changed nothing.
  pub idle-Advances :
      (call after : Call) (d : Db)
      → d ≡ db
      → in_flight shelf after ≡ in_flight shelf call
      → IsBacked after db
      → Advances shelf call db (after, d)
  idle-Advances call after d same flight backed =
      subst (λ x. Advances shelf call db (after, x)) (sym same)
        (record {
          balance = ap (λ n. total_on shelf db + n) flight;
          keys = keys;
          shelves = SameShelves-id;
          backed = backed;
        })

  -- A statement that leaves the orders as they were.
  pub stock-Advances :
      (call after : Call) (d : Db)
      → SameShelves db d
      → SameOrders db d
      → units_on shelf d + in_flight shelf after ≡ units_on shelf db + in_flight shelf call
      → IsBacked after db
      → Advances shelf call db (after, d)
  stock-Advances call after d shelves orders units backed = record {
    balance = omega (arith, held-kept shelf db d orders, units);
    keys = IsConsistent-kept db d shelves orders keys;
    shelves = shelves;
    backed = IsBacked-kept db d shelves after backed;
  }

  units_on-same :
      (d : Db)
      → d.skus ≡ db.skus
      → d.sale_skus ≡ db.sale_skus
      → units_on shelf d ≡ units_on shelf db
  units_on-same d skus sales = at shelf
    where
      at : (s : Shelf) → units_on s d ≡ units_on s db
      at (Shelf.of_sku k) = unfold units_on stock_of in rw skus refl
      at (Shelf.of_sale k) = unfold units_on sale_stock_of in rw sales refl

  -- A statement that changes neither stock.
  pub paid-Advances :
      (call after : Call) (d : Db)
      → Pays db d
      → in_flight shelf after ≡ in_flight shelf call
      → IsBacked after db
      → Advances shelf call db (after, d)
  paid-Advances call after d pays flight backed =
      stock-Advances call after d (SameShelves-refl db d pays.skus pays.sale_skus) pays.orders
        (omega (arith, units_on-same d pays.skus pays.sale_skus, flight)) backed

  pub purchases-Advances :
      (call after : Call) (d : Db)
      → d ≡ record db { purchases = d.purchases }
      → in_flight shelf after ≡ in_flight shelf call
      → IsBacked after db
      → Advances shelf call db (after, d)
  purchases-Advances call after d same flight backed =
      let skus : d.skus ≡ db.skus = ap (λ (x : Db). x.skus) same in
      let sales : d.sale_skus ≡ db.sale_skus = ap (λ (x : Db). x.sale_skus) same in
      stock-Advances call after d (SameShelves-refl db d skus sales)
        (SameOrders-refl db d (ap (λ (x : Db). x.orders) same)
          (ap (λ (x : Db). x.order_items) same))
        (omega (arith, units_on-same d skus sales, flight)) backed
