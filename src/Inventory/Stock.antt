-- ===== src/Inventory/Stock.antt =====
-- The units of a SKU, and what taking and giving back do to them.
use flash_core.Common.{
  ℕ, ◌+◌, ◌-◌, ◌≤◌, ◌≡◌, refl, inl, inr, Bool, true, Option, none, some, ◌==◌, if◌then◌else◌, arith,
  is_some, Option-cases,
}
use flash_core.Common.Table.{find, find-holds, find-update_where, count-update_where}
use flash_core.Store.{Db, Sku}
use flash_core.Inventory.Statements.{has_id, take_units, give_units}
use flash_core.Inventory.Interface.{Verdict, verdict, judge, take_stock, give_stock, IsKeyed}

unfoldable pub units : Option Sku → ℕ
units none = 0
units (some r) = r.stock

-- The stock of SKU `j`, 0 where no such row is.
unfoldable pub stock_of : ℕ → Db → ℕ
unfolding units
stock_of j db = units (find (has_id j) db.skus)

abbrev pub has_sku : ℕ → Db → Bool
has_sku j db = is_some (find (has_id j) db.skus)

module _ (j k q : ℕ) (db : Db) where
  pub stock_of-take_stock :
      stock_of j (take_stock k q db) ≡ (if j == k then stock_of j db - q else stock_of j db)
  unfolding stock_of take_stock
  stock_of-take_stock = elim (Option-cases (find (has_id j) db.skus)) [
    | inl e ↦
        ground (arith, find-update_where (has_id k) (has_id j) (take_units q) (λ x. refl) db.skus)
    | inr (r, e) ↦ ground (
      arith,
      find-update_where (has_id k) (has_id j) (take_units q) (λ x. refl) db.skus,
      find-holds (has_id j) db.skus r e,
    )
  ]

  pub stock_of-give_stock :
      has_sku k db ≡ true
      → stock_of j (give_stock k q db) ≡ (if j == k then stock_of j db + q else stock_of j db)
  unfolding stock_of give_stock
  stock_of-give_stock there = elim (Option-cases (find (has_id j) db.skus)) [
    | inl e ↦
        ground (arith, find-update_where (has_id k) (has_id j) (give_units q) (λ x. refl) db.skus)
    | inr (r, e) ↦ ground (
      arith,
      find-update_where (has_id k) (has_id j) (give_units q) (λ x. refl) db.skus,
      find-holds (has_id j) db.skus r e,
    )
  ]

  pub has_sku-take_stock : has_sku j (take_stock k q db) ≡ has_sku j db
  unfolding take_stock
  has_sku-take_stock =
      ground (arith, find-update_where (has_id k) (has_id j) (take_units q) (λ x. refl) db.skus)

  pub has_sku-give_stock : has_sku j (give_stock k q db) ≡ has_sku j db
  unfolding give_stock
  has_sku-give_stock =
      ground (arith, find-update_where (has_id k) (has_id j) (give_units q) (λ x. refl) db.skus)

pub take_stock-IsKeyed : (k q : ℕ) (db : Db) → IsKeyed db → IsKeyed (take_stock k q db)
unfolding take_stock
take_stock-IsKeyed k q db keyed j =
    rw (count-update_where (has_id k) (has_id j) (take_units q) (λ x. refl) db.skus) (keyed j)

pub give_stock-IsKeyed : (k q : ℕ) (db : Db) → IsKeyed db → IsKeyed (give_stock k q db)
unfolding give_stock
give_stock-IsKeyed k q db keyed j =
    rw (count-update_where (has_id k) (has_id j) (give_units q) (λ x. refl) db.skus) (keyed j)

-- A grant covers the units that it takes, from a row that is there.
pub granted-stock_of :
    (k q price : ℕ) (db : Db)
    → verdict k q db ≡ Verdict.granted price
    → (q ≤ stock_of k db) × (has_sku k db ≡ true)
unfolding verdict judge stock_of
granted-stock_of k q price db e = ground arith
