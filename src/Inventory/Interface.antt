-- ===== src/Inventory/Interface.antt =====
-- The interface InventoryReserver, and what a reservation does to the database alone.
use flash_core.Common.{ℕ, Option, none, some, ◌≡◌, ◌≤◌, leb, if◌then◌else◌}
use flash_core.Common.Table.{find, update_where, count_where}
use flash_core.Store.{Db, Sku, World, Action, Result, ok, err, Error, Fate}
use flash_core.Inventory.Statements.{Refusal, has_id, take_units, give_units}

-- `ReserveResult`: the price read from the database with the number of attempts, or the reason.
pub data Reserved : Type 0 where
  reserved : ℕ → ℕ → Reserved
  refused : Refusal → Reserved

pub record Reserver : Type 0 where
  pub reserve : ℕ → ℕ → Action World Reserved
  pub release : ℕ → ℕ → Action World (Unit {0})

-- The units of SKU `k` taken from, and given back to, its row.
unfoldable pub take_stock : ℕ → ℕ → Db → Db
take_stock k q db = record db { skus = update_where (has_id k) (take_units q) db.skus }

unfoldable pub give_stock : ℕ → ℕ → Db → Db
give_stock k q db = record db { skus = update_where (has_id k) (give_units q) db.skus }

-- The price of a grant, or the reason against it.
pub data Verdict : Type 0 where
  granted : ℕ → Verdict
  denied : Refusal → Verdict

unfoldable pub judge : ℕ → Option Sku → Verdict
judge q none = Verdict.denied Refusal.sku_not_found
judge q (some r) =
    if r.is_active
    then (if leb q r.stock
        then Verdict.granted r.price_vnd
        else Verdict.denied Refusal.out_of_stock)
    else Verdict.denied Refusal.sku_not_found

-- What every strategy is held to: `verdict` says whether SKU `k` has `q` units on sale, and
-- `settled` is the database after that verdict.
unfoldable pub verdict : ℕ → ℕ → Db → Verdict
unfolding judge
verdict k q db = judge q (find (has_id k) db.skus)

abbrev pub settled : ℕ → ℕ → Verdict → Db → Db
settled k q (Verdict.granted price) db = take_stock k q db
settled k q (Verdict.denied reason) db = db

-- The primary key of `product_skus`.
abbrev pub IsKeyed : Db → Type 0
IsKeyed db = (k : ℕ) → count_where (has_id k) db.skus ≤ 1

-- Only the database and the Redis counters differ between the two worlds.
abbrev pub Moves : World → Db → World → Type 0
Moves w d w' = w' ≡ record w { db = d; redis = w'.redis }

-- What OrderService relies on: a grant is the verdict's and takes exactly `q` units, and with any
-- other end the database is as before.
abbrev pub Grants : ℕ → ℕ → World → Result Reserved × World → Type 0
Grants k q w (ok (Reserved.reserved price attempts), w') =
    (verdict k q w.db ≡ Verdict.granted price) × Moves w (take_stock k q w.db) w'
Grants k q w (ok (Reserved.refused reason), w') = Moves w w.db w'
Grants k q w (err e, w') = Moves w w.db w'

-- What a release comes to where its UPDATE meets that fate: it gives back exactly `q` units, or it
-- throws what the UPDATE threw and the database is as before.
abbrev pub Gives : Fate → ℕ → ℕ → World → Result (Unit {0}) × World → Type 0
Gives Fate.runs k q w (res, w') = (res ≡ ok tt) × Moves w (give_stock k q w.db) w'
Gives Fate.conflicts k q w (res, w') = (res ≡ err Error.conflict) × Moves w w.db w'
Gives Fate.breaks k q w (res, w') = (res ≡ err Error.query_failed) × Moves w w.db w'

-- The contract of a strategy, `give` being what the UPDATE of its releases meets.
pub record Keeps (give : Fate) (r : Reserver) : Type 0 where
  pub reserve_keeps : (k q : ℕ) (w : World) → IsKeyed w.db → Grants k q w (r.reserve k q w)
  pub release_keeps : (k q : ℕ) (w : World) → Gives give k q w (r.release k q w)

-- The contract while the UPDATE of releases runs.
pub record IsSound (r : Reserver) : Type 0 where
  pub reserve_grants : (k q : ℕ) (w : World) → IsKeyed w.db → Grants k q w (r.reserve k q w)
  pub release_gives :
      (k q : ℕ) (w : World)
      → ((r.release k q w).0 ≡ ok tt) × Moves w (give_stock k q w.db) (r.release k q w).1

pub Keeps-IsSound : (r : Reserver) → Keeps Fate.runs r → IsSound r
Keeps-IsSound r keeps = record {
  reserve_grants = keeps.reserve_keeps;
  release_gives = keeps.release_keeps;
}
