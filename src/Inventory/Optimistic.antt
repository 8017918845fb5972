-- ===== src/Inventory/Optimistic.antt =====
-- OptimisticReserver (strategies/optimistic.reserver.ts). The fates say how PostgreSQL answers the
-- UPDATE and the SELECT of each attempt, and `give` how it answers the UPDATE of a release; the pause between attempts changes no state.
use flash_core.Common.{
  ℕ, zero, suc, ◌+◌, Bool, true, false, none, some, ◌||◌, not, ◌==◌, if◌then◌else◌,
}
use flash_core.Store.{World, Action, ok, err, Error, Fate, pure, throw, on_db, statement, ◌>>=◌}
use flash_core.Inventory.Statements.{
  Refusal, decrement_stock_conditional, is_sku_on_sale, increment_stock,
}
use flash_core.Inventory.Interface.{Reserved, Reserver}

pub record Fates : Type 0 where
  pub update : ℕ → Fate
  pub check : ℕ → Fate
  pub give : Fate

abbrev pub max_attempts : ℕ
max_attempts = 3

-- `isRetryableConflict`.
abbrev pub is_retryable_conflict : Error → Bool
is_retryable_conflict Error.conflict = true
is_retryable_conflict _ = false

-- The body of `try`.
unfoldable pub try_once : Fates → ℕ → ℕ → ℕ → Action World Reserved
unfolding decrement_stock_conditional is_sku_on_sale
try_once fates k q attempt = do
  updated ← statement (fates.update attempt) (on_db (decrement_stock_conditional k q))
  elim updated [
    | some price ↦ pure (Reserved.reserved price attempt)
    | none ↦ do
      on_sale ← statement (fates.check attempt) (on_db (is_sku_on_sale k))
      pure (Reserved.refused (if on_sale then Refusal.out_of_stock else Refusal.sku_not_found))
  ]

-- The loop from `attempt` on, with the rounds that are left.
unfoldable pub attempts_from : Fates → ℕ → ℕ → ℕ → ℕ → Action World Reserved
attempts_from fates k q attempt zero w = throw Error.internal w
attempts_from fates k q attempt (suc rounds) w =
    let rest = attempts_from fates k q (attempt + 1) rounds in
    let (r, w') = try_once fates k q attempt w in
    elim r [
      | ok x ↦ (ok x, w')
      | err e ↦
          if not (is_retryable_conflict e) || attempt == max_attempts then (err e, w') else rest w'
    ]

unfoldable pub optimistic : Fates → Reserver
unfolding attempts_from increment_stock
optimistic fates = record {
  reserve = λ k q. attempts_from fates k q 1 max_attempts;
  release = λ k q. statement fates.give (on_db (increment_stock k q));
}
