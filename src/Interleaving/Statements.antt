-- ===== src/Interleaving/Statements.antt =====
-- What each statement does to the keys, and to the units of a shelf: in its stock, in live orders.
use flash_core.Common.{
  ℕ, ◌+◌, ◌-◌, ◌≡◌, refl, Bool, true, Option, none, some, ◌&&◌, leb, if◌then◌else◌, is_some, arith,
  Option-cases, inl, inr,
}
use flash_core.Common.Table.{
  find, keep, find-and, update_where-and, find-update_where, find-holds, count-update_where,
  update_where,
}
use flash_core.Store.{Db, SaleSku, Result, ok, err}
use flash_core.Inventory.{take_stock, give_stock, has_id, take_units, give_units, verdict, Verdict}
use flash_core.Inventory.Stock.{
  stock_of, stock_of-take_stock, has_sku-take_stock, has_sku-give_stock, granted-stock_of,
}
use flash_core.Orders.{
  has_sale_id, event_of, open_event, claim_user_quota, decrement_sale_event_stock,
  increment_sale_event_stock,
}
use flash_core.Orders.Ledger.{Shelf, is_on}
use flash_core.Orders.Ledger.Cancelling.{units_on, sale_stock_of}
use flash_core.Interleaving.Keys.{IsConsistent, SameShelves}

-- `q` units of a SKU, or of a sale SKU, as units of `shelf`.
abbrev pub on_shelf : Shelf → ℕ → Option ℕ → ℕ → ℕ
on_shelf shelf sku origin q = if is_on shelf sku origin then q else 0

pub take_stock-SameShelves : (sku q : ℕ) (db : Db) → SameShelves db (take_stock sku q db)
take_stock-SameShelves sku q db =
    unfold take_stock in
    record {
      skus = λ j. has_sku-take_stock j sku q db;
      sales = λ j. refl;
      sku_counts =
          λ j. count-update_where (has_id sku) (has_id j) (take_units q) (λ x. refl) db.skus;
      sale_counts = λ j. refl;
    }

pub give_stock-SameShelves : (sku q : ℕ) (db : Db) → SameShelves db (give_stock sku q db)
give_stock-SameShelves sku q db =
    unfold give_stock in
    record {
      skus = λ j. has_sku-give_stock j sku q db;
      sales = λ j. refl;
      sku_counts =
          λ j. count-update_where (has_id sku) (has_id j) (give_units q) (λ x. refl) db.skus;
      sale_counts = λ j. refl;
    }

-- The units that the reservation of a SKU takes from its shelf.
pub take_stock-units :
    (shelf : Shelf) (sku q price : ℕ) (db : Db)
    → verdict sku q db ≡ Verdict.granted price
    → units_on shelf (take_stock sku q db) + on_shelf shelf sku none q ≡ units_on shelf db
unfolding units_on sale_stock_of take_stock
take_stock-units (Shelf.of_sku k) sku q price db grant =
    unfold take_stock in
    ground (arith, stock_of-take_stock k sku q db, granted-stock_of sku q price db grant)
take_stock-units (Shelf.of_sale k) sku q price db grant = omega arith

-- The statements on the purchases change no shelf and no order.
pub claim-purchases :
    (sale user q : ℕ) (db : Db)
    → let (r, d) = claim_user_quota sale user q db in d ≡ record db { purchases = d.purchases }
unfolding claim_user_quota
claim-purchases sale user q db = ground arith

module _ (now sale q : ℕ) (db : Db) where
  abbrev pub is_sold : SaleSku → Bool
  is_sold s = leb q s.stock && open_event now (event_of s db)

  abbrev pub taken_sale : Db
  taken_sale = record db {
    sale_skus =
        update_where (has_sale_id sale) (λ (s : SaleSku). record s { stock = s.stock - q })
          db.sale_skus;
  }

  -- The UPDATE meets the row of that id, or no row.
  abbrev pub SaleTaken : Result (Option (ℕ × ℕ)) × Db → Type 0
  SaleTaken (ok none, d) = d ≡ db
  SaleTaken (ok (some x), d) =
      (d ≡ taken_sale) × (is_some (keep is_sold (find (has_sale_id sale) db.sale_skus)) ≡ true)
  SaleTaken (err e, d) = d ≡ db

  pub decrement_sale_event_stock-SaleTaken :
      IsConsistent db → SaleTaken (decrement_sale_event_stock now sale q db)
  unfolding decrement_sale_event_stock
  decrement_sale_event_stock-SaleTaken keys = ground (
    arith,
    keys.sale_keys sale,
    find-and (has_sale_id sale) is_sold db.sale_skus,
    update_where-and (has_sale_id sale) is_sold (λ (s : SaleSku). record s { stock = s.stock - q })
        db.sale_skus,
  )

  pub taken_sale-SameShelves : SameShelves db taken_sale
  taken_sale-SameShelves = record {
    skus = λ j. refl;
    sales = λ j. ground (
      arith,
      find-update_where (has_sale_id sale) (has_sale_id j)
          (λ (s : SaleSku). record s { stock = s.stock - q }) (λ x. refl) db.sale_skus,
    );
    sku_counts = λ j. refl;
    sale_counts = λ j.
        count-update_where (has_sale_id sale) (has_sale_id j)
          (λ (s : SaleSku). record s { stock = s.stock - q }) (λ x. refl) db.sale_skus;
  }

  pub taken_sale-units :
      (shelf : Shelf) (sku : ℕ)
      → is_some (keep is_sold (find (has_sale_id sale) db.sale_skus)) ≡ true
      → units_on shelf taken_sale + on_shelf shelf sku (some sale) q ≡ units_on shelf db
  unfolding units_on stock_of sale_stock_of
  taken_sale-units (Shelf.of_sku k) sku hit = omega arith
  taken_sale-units (Shelf.of_sale k) sku hit =
      elim (Option-cases (find (has_sale_id k) db.sale_skus)) [
        | inl e ↦ ground (
          arith,
          find-update_where (has_sale_id sale) (has_sale_id k)
              (λ (s : SaleSku). record s { stock = s.stock - q }) (λ x. refl) db.sale_skus,
        )
        | inr (r, e) ↦ ground (
          arith,
          find-update_where (has_sale_id sale) (has_sale_id k)
              (λ (s : SaleSku). record s { stock = s.stock - q }) (λ x. refl) db.sale_skus,
          find-holds (has_sale_id k) db.sale_skus r e,
        )
      ]

pub increment-SameShelves :
    (sale q : ℕ) (db : Db) → SameShelves db (increment_sale_event_stock sale q db).1
increment-SameShelves sale q db =
    unfold increment_sale_event_stock in
    record {
      skus = λ j. refl;
      sales = λ j. ground (
        arith,
        find-update_where (has_sale_id sale) (has_sale_id j)
            (λ (s : SaleSku). record s { stock = s.stock + q }) (λ x. refl) db.sale_skus,
      );
      sku_counts = λ j. refl;
      sale_counts = λ j.
          count-update_where (has_sale_id sale) (has_sale_id j)
            (λ (s : SaleSku). record s { stock = s.stock + q }) (λ x. refl) db.sale_skus;
    }
