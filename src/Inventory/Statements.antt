-- ===== src/Inventory/Statements.antt =====
-- The statements of order.repository.ts on `product_skus`. The CHECK `stock >= 0` cannot fail
-- here: each subtraction stands behind a test of the same row.
use mathlib.Core.Option
use flash_core.Common.{
  ℕ, ◌+◌, ◌-◌, Bool, Option, none, some, ◌&&◌, ltb, leb, ◌==◌, if◌then◌else◌, is_some,
}
use flash_core.Common.Table.{find, update_where}
use flash_core.Store.{Db, Sku, Action, pure, gets, modify, transaction, ◌>>=◌, ◌>>◌}

-- Why no stock was taken, and what a lock of the row led to.
pub data Refusal : Type 0 where
  out_of_stock sku_not_found : Refusal

pub data Locked : Type 0 where
  sold_at : ℕ → Locked
  unlocked : Refusal → Locked

abbrev pub has_id : ℕ → Sku → Bool
has_id k r = r.id == k

abbrev pub take_units : ℕ → Sku → Sku
take_units q r = record r { stock = r.stock - q; version = r.version + 1 }

abbrev pub give_units : ℕ → Sku → Sku
give_units q r = record r { stock = r.stock + q; version = r.version + 1 }

-- `UPDATE ... WHERE id AND is_active AND stock >= q RETURNING price_vnd`, first row.
unfoldable pub decrement_stock_conditional : ℕ → ℕ → Action Db (Option ℕ)
decrement_stock_conditional k q = do
  row ← gets (λ db. find (λ r. has_id k r && (r.is_active && leb q r.stock)) db.skus)
  modify λ db. record db {
    skus = update_where (λ r. has_id k r && (r.is_active && leb q r.stock)) (take_units q) db.skus;
  }
  pure (Option.map (λ r. r.price_vnd) row)

-- `SELECT ... FOR UPDATE`, the test in memory, and an `UPDATE` by the id alone.
unfoldable pub lock_and_decrement_stock : ℕ → ℕ → Action Db Locked
lock_and_decrement_stock k q = transaction do
  row ← gets (λ db. find (λ r. has_id k r && r.is_active) db.skus)
  elim row [
    | none ↦ pure (Locked.unlocked Refusal.sku_not_found)
    | some r ↦ if ltb r.stock q then pure (Locked.unlocked Refusal.out_of_stock) else (do
      modify (λ db. record db { skus = update_where (has_id k) (take_units q) db.skus })
      pure (Locked.sold_at r.price_vnd))
  ]

unfoldable pub increment_stock : ℕ → ℕ → Action Db (Unit {0})
increment_stock k q =
    modify λ db. record db { skus = update_where (has_id k) (give_units q) db.skus }

unfoldable pub is_sku_on_sale : ℕ → Action Db Bool
is_sku_on_sale k = gets λ db. is_some (find (λ r. has_id k r && r.is_active) db.skus)

-- The stock that Redis is loaded with (the caller reads nothing else of the row).
unfoldable pub read_sku_stock : ℕ → Action Db (Option ℕ)
read_sku_stock k =
    gets λ db. Option.map (λ r. r.stock) (find (λ r. has_id k r && r.is_active) db.skus)
