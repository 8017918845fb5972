-- ===== src/Inventory/Pessimistic.antt =====
-- PessimisticReserver (strategies/pessimistic.reserver.ts).
use flash_core.Common.{ℕ}
use flash_core.Store.{World, Action, pure, on_db, ◌>>=◌}
use flash_core.Inventory.Statements.{Locked, lock_and_decrement_stock, increment_stock}
use flash_core.Inventory.Interface.{Reserved, Reserver}

unfoldable pub pessimistic_reserve : ℕ → ℕ → Action World Reserved
unfolding lock_and_decrement_stock
pessimistic_reserve k q = do
  result ← on_db (lock_and_decrement_stock k q)
  elim result [
    | Locked.unlocked reason ↦ pure (Reserved.refused reason)
    | Locked.sold_at price ↦ pure (Reserved.reserved price 1)
  ]

unfoldable pub pessimistic : Reserver
unfolding pessimistic_reserve increment_stock
pessimistic = record { reserve = pessimistic_reserve; release = λ k q. on_db (increment_stock k q) }
