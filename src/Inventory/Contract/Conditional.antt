-- ===== src/Inventory/Contract/Conditional.antt =====
-- The statements on `product_skus` against the verdict, and the two strategies that use nothing else.
use mathlib.Core.Path.{subst}
use flash_core.Common.{
  true, false, ℕ, zero, suc, ◌+◌, ◌≤◌, ◌<◌, ◌≡◌, refl, Option, none, some, ◌&&◌, leb, arith,
}
use flash_core.Common.Table.{find-and, update_where-and}
use flash_core.Store.{Db, World, Result, ok, err, Fate, Error, statement, on_db}
use flash_core.Inventory.Statements.{
  Refusal, Locked, has_id, take_units, decrement_stock_conditional, lock_and_decrement_stock,
  is_sku_on_sale, increment_stock,
}
use flash_core.Inventory.Interface.{
  Reserved, Verdict, verdict, judge, settled, take_stock, give_stock, IsKeyed, Grants, IsSound,
  Gives, Keeps, Keeps-IsSound,
}
use flash_core.Inventory.Optimistic.{Fates, try_once, attempts_from, max_attempts, optimistic}
use flash_core.Inventory.Pessimistic.{pessimistic, pessimistic_reserve}

abbrev pub price_of : Verdict → Option ℕ
price_of (Verdict.granted price) = some price
price_of (Verdict.denied reason) = none

-- The conditional UPDATE returns the price of a grant and takes the units, or changes nothing.
pub decrement_stock_conditional_lem :
    (k q : ℕ) (db : Db)
    → IsKeyed db
    → decrement_stock_conditional k q db
      ≡ (ok (price_of (verdict k q db)), settled k q (verdict k q db) db)
unfolding decrement_stock_conditional verdict take_stock
decrement_stock_conditional_lem k q db keyed = ground (
  arith,
  keyed k,
  find-and (has_id k) (λ r. r.is_active && leb q r.stock) db.skus,
  update_where-and (has_id k) (λ r. r.is_active && leb q r.stock) (take_units q) db.skus,
)

-- The re-read after a refused UPDATE finds the same reason as the verdict.
is_sku_on_sale_lem :
    (k q : ℕ) (db : Db) {reason : Refusal}
    → IsKeyed db
    → verdict k q db ≡ Verdict.denied reason
    → is_sku_on_sale k db
      ≡ (ok (elim reason [ Refusal.out_of_stock ↦ true | Refusal.sku_not_found ↦ false ]), db)
unfolding is_sku_on_sale verdict judge
is_sku_on_sale_lem k q db keyed e =
    ground (arith, keyed k, find-and (has_id k) (λ r. r.is_active) db.skus)

-- Locking the row first comes to the verdict too.
lock_and_decrement_stock_lem :
    (k q : ℕ) (db : Db)
    → IsKeyed db
    → lock_and_decrement_stock k q db ≡ (
      ok (elim (verdict k q db) [
        | Verdict.granted price ↦ Locked.sold_at price
        | Verdict.denied reason ↦ Locked.unlocked reason
      ]),
      settled k q (verdict k q db) db,
    )
unfolding lock_and_decrement_stock verdict judge take_stock
lock_and_decrement_stock_lem k q db keyed =
    ground (arith, keyed k, find-and (has_id k) (λ r. r.is_active) db.skus)

abbrev pub answer : ℕ → Verdict → Reserved
answer attempts (Verdict.granted price) = Reserved.reserved price attempts
answer attempts (Verdict.denied reason) = Reserved.refused reason

-- Where SKU ids are unique, the pessimistic strategy gives the verdict on the stock in one
-- attempt, having taken the units exactly if it granted them.
pub pessimistic_reserve-verdict :
    (k q : ℕ) (w : World)
    → IsKeyed w.db
    → pessimistic_reserve k q w
      ≡ (ok (answer 1 (verdict k q w.db)), record w { db = settled k q (verdict k q w.db) w.db })
unfolding pessimistic_reserve
pessimistic_reserve-verdict k q w keyed =
    ground (arith, lock_and_decrement_stock_lem k q w.db keyed)

-- The verdict with its database, or a throw that leaves the world alone.
abbrev Tries : ℕ → ℕ → ℕ → World → Result Reserved × World → Type 0
Tries k q attempt w (ok x, w') =
    (x ≡ answer attempt (verdict k q w.db))
    × (w' ≡ record w { db = settled k q (verdict k q w.db) w.db })
Tries k q attempt w (err e, w') = w' ≡ w

try_once-Tries :
    (fates : Fates) (k q attempt : ℕ) (w : World)
    → IsKeyed w.db
    → Tries k q attempt w (try_once fates k q attempt w)
unfolding try_once
try_once-Tries fates k q attempt w keyed = ground (
  arith,
  decrement_stock_conditional_lem k q w.db keyed,
  is_sku_on_sale_lem k q w.db {reason = Refusal.out_of_stock} keyed,
  is_sku_on_sale_lem k q w.db {reason = Refusal.sku_not_found} keyed,
)

try_once_runs :
    (fates : Fates) (k q attempt : ℕ) (w : World)
    → IsKeyed w.db
    → fates.update attempt ≡ Fate.runs
    → fates.check attempt ≡ Fate.runs
    → try_once fates k q attempt w ≡ (
      ok (answer attempt (verdict k q w.db)),
      record w { db = settled k q (verdict k q w.db) w.db },
    )
unfolding try_once
try_once_runs fates k q attempt w keyed u c = ground (
  arith,
  decrement_stock_conditional_lem k q w.db keyed,
  is_sku_on_sale_lem k q w.db {reason = Refusal.out_of_stock} keyed,
  is_sku_on_sale_lem k q w.db {reason = Refusal.sku_not_found} keyed,
)

attempts_from-Grants :
    (fates : Fates) (k q attempt rounds : ℕ) (w : World)
    → IsKeyed w.db
    → Grants k q w (attempts_from fates k q attempt rounds w)
unfolding attempts_from
attempts_from-Grants fates k q attempt zero w keyed = refl
attempts_from-Grants fates k q attempt (suc rounds) w keyed = ground (
  arith,
  try_once-Tries fates k q attempt w keyed,
  attempts_from-Grants fates k q (attempt + 1) rounds w keyed,
)

try_once_conflicts :
    (fates : Fates) (k q attempt : ℕ) (w : World)
    → fates.update attempt ≡ Fate.conflicts
    → try_once fates k q attempt w ≡ (err Error.conflict, w)
unfolding try_once
try_once_conflicts fates k q attempt w lost = ground arith

-- The rounds that are lost to conflicts, and then the one that runs.
attempts_from_runs :
    (fates : Fates) (k q last attempt lost rounds : ℕ) (w : World)
    → IsKeyed w.db
    → attempt + lost ≡ last
    → lost ≤ rounds
    → attempt + rounds ≡ max_attempts
    → 1 ≤ attempt
    → ((i : ℕ) → 1 ≤ i → i < last → fates.update i ≡ Fate.conflicts)
    → fates.update last ≡ Fate.runs
    → fates.check last ≡ Fate.runs
    → attempts_from fates k q attempt (suc rounds) w
      ≡ (ok (answer last (verdict k q w.db)), record w { db = settled k q (verdict k q w.db) w.db })
unfolding attempts_from
attempts_from_runs fates k q last attempt zero rounds w keyed here few total counted lose u c =
    ground (arith, try_once_runs fates k q last w keyed u c)
attempts_from_runs fates k q last attempt (suc lost) zero w keyed here few total counted lose u c =
    absurd (omega arith)
attempts_from_runs fates k q last attempt (suc lost) (suc rounds) w keyed here few total counted
      lose u c =
    ground (
      arith,
      lose attempt counted (omega arith),
      try_once_conflicts fates k q attempt w (lose attempt counted (omega arith)),
      attempts_from_runs fates k q last (attempt + 1) lost rounds w keyed (omega arith)
          (omega arith) (omega arith) (omega arith) lose u c,
    )

-- The optimistic strategy: after at most two conflicts it gives the verdict on the stock, having
-- taken the units exactly if it granted them, and reports the attempt that ran.
pub optimistic-reserve-verdict :
    (fates : Fates) (k q lost : ℕ) (w : World)
    → IsKeyed w.db
    → lost < max_attempts
    → ((i : ℕ) → 1 ≤ i → i < suc lost → fates.update i ≡ Fate.conflicts)
    → fates.update (suc lost) ≡ Fate.runs
    → fates.check (suc lost) ≡ Fate.runs
    → (optimistic fates).reserve k q w ≡ (
      ok (answer (suc lost) (verdict k q w.db)),
      record w { db = settled k q (verdict k q w.db) w.db },
    )
unfolding optimistic
optimistic-reserve-verdict fates k q lost w keyed few lose u c =
    attempts_from_runs fates k q (suc lost) 1 lost 2 w keyed (omega arith) (omega arith)
      (omega arith) (omega arith) lose u c

given_back :
    (give : Fate) (k q : ℕ) (w : World)
    → Gives give k q w (statement give (on_db (increment_stock k q)) w)
unfolding increment_stock give_stock
given_back Fate.runs k q w = (refl, refl)
given_back Fate.conflicts k q w = (refl, refl)
given_back Fate.breaks k q w = (refl, refl)

-- The optimistic strategy keeps the contract whatever the database answers to each statement.
-- Where SKU ids are unique, it grants only what the database grants and takes exactly that, and a
-- reservation that it refuses or that throws leaves the database as it was. A release gives back
-- exactly its units where its UPDATE runs; where the UPDATE fails it throws that error and the
-- database is as it was.
pub optimistic-Keeps : (fates : Fates) → Keeps fates.give (optimistic fates)
unfolding optimistic
optimistic-Keeps fates = record {
  reserve_keeps = λ k q w keyed. attempts_from-Grants fates k q 1 max_attempts w keyed;
  release_keeps = λ k q w. given_back fates.give k q w;
}

optimistic-IsSound : (fates : Fates) → fates.give ≡ Fate.runs → IsSound (optimistic fates)
optimistic-IsSound fates runs =
    Keeps-IsSound (optimistic fates)
      (subst (λ give. Keeps give (optimistic fates)) runs (optimistic-Keeps fates))

-- So does the pessimistic one.
pub pessimistic-IsSound : IsSound pessimistic
unfolding pessimistic increment_stock give_stock
pessimistic-IsSound = record {
  reserve_grants = λ k q w keyed. ground (arith, pessimistic_reserve-verdict k q w keyed);
  release_gives = λ k q w. (refl, refl);
}
