-- ===== src/Inventory/Contract/Counter.antt =====
-- The Redis counter of a SKU against its stock in PostgreSQL.
use flash_core.Common.{
  ℕ, ◌+◌, ◌≤◌, ◌<◌, ◌≡◌, refl, Bool, true, false, Option, none, some, ◌==◌, arith,
}
use flash_core.Common.Table.{find-and}
use flash_core.Store.{Action, World, Result, ok, err, Fate, statement, ◌>>=◌}
use flash_core.Inventory.Statements.{Refusal, has_id, increment_stock}
use flash_core.Inventory.Interface.{Reserved, give_stock, IsKeyed}
use flash_core.Inventory.Stock.{units, stock_of, has_sku, stock_of-take_stock, stock_of-give_stock}
use flash_core.Inventory.RedisAtomic.{
  Fates, Remaining, run_reserve_script, load_stock_into_redis, incremented, release_redis, persist,
  decide, evict, after_load, after_script, retry_loaded, redis_reserve, redis_release,
}
use flash_core.Inventory.Contract.Conditional.{decrement_stock_conditional_lem}

-- The counter, if there is one, does not exceed the stock.
abbrev AtMost : Option ℕ → ℕ → Type 0
AtMost none stock = Unit {0}
AtMost (some n) stock = n ≤ stock

-- For the SKU of the call the script has taken `q` units that the stock still covers.
abbrev Owes : Bool → ℕ → Option ℕ → ℕ → Type 0
Owes true q none stock = ⊥
Owes true q (some n) stock = n + q ≤ stock
Owes false q counter stock = AtMost counter stock

-- Redis never promises a unit of SKU `j` that PostgreSQL does not have.
abbrev pub IsCovered : ℕ → World → Type 0
IsCovered j w = AtMost (w.redis j) (stock_of j w.db)

module _ (fates : Fates) (j k q : ℕ) where
  abbrev IsOwed : World → Type 0
  IsOwed w = Owes (j == k) q (w.redis j) (stock_of j w.db)

  persist-IsCovered : (w : World) → IsKeyed w.db → IsOwed w → IsCovered j (persist fates k q w).1
  unfolding persist release_redis incremented
  persist-IsCovered w keyed owed =
      ground (arith, decrement_stock_conditional_lem k q w.db keyed, stock_of-take_stock j k q w.db)

  -- What the script's answer says of the world that it leaves.
  abbrev Scripted : Remaining → World → Type 0
  Scripted Remaining.not_loaded w = IsCovered j w
  Scripted Remaining.insufficient w = IsCovered j w
  Scripted (Remaining.left units) w = IsOwed w

  -- An end of a part that touches no table.
  abbrev Ends : {A : Type 0} → (A → World → Type 0) → World → Result A × World → Type 0
  Ends P w (ok a, v) = (v.db ≡ w.db) × P a v
  Ends P w (err e, v) = IsCovered j v

  statement-Ends :
      {A : Type 0} (P : A → World → Type 0) (fate : Fate) (m : Action World A) (w : World)
      → IsCovered j w
      → Ends P w (m w)
      → Ends P w (statement fate m w)
  statement-Ends P Fate.runs m w c e = e
  statement-Ends P Fate.conflicts m w c e = c
  statement-Ends P Fate.breaks m w c e = c

  script-Ends : (w : World) → IsCovered j w → Ends Scripted w (run_reserve_script k q w)
  unfolding run_reserve_script
  script-Ends w c = ground arith

  load-Ends :
      (w : World)
      → IsKeyed w.db
      → IsCovered j w
      → Ends (λ _ v. IsCovered j v) w (load_stock_into_redis fates k w)
  unfolding load_stock_into_redis stock_of
  load-Ends w keyed c = ground (arith, keyed k, find-and (has_id k) (λ r. r.is_active) w.db.skus)

  evict-Ends :
      (gone : Bool) (w : World) → IsCovered j w → Ends (λ _ v. IsCovered j v) w (evict gone k w)
  unfolding evict
  evict-Ends true w c = ground arith
  evict-Ends false w c = (refl, c)

  after-IsCovered :
      {A : Type 0} (P : A → World → Type 0) (f : A → Action World Reserved) (w : World)
      (res : Result A × World)
      → IsKeyed w.db
      → Ends P w res
      → ((a : A) (v : World) → IsKeyed v.db → P a v → IsCovered j (f a v).1)
      → IsCovered j (◌>>=◌ (λ _. res) f w).1
  after-IsCovered P f w (ok a, v) keyed (same, p) go = go a v (rw same keyed) p
  after-IsCovered P f w (err e, v) keyed c go = c

  bind-IsCovered :
      {A : Type 0} (P : A → World → Type 0) (m : Action World A) (f : A → Action World Reserved)
      (w : World)
      → IsKeyed w.db
      → Ends P w (m w)
      → ((a : A) (v : World) → IsKeyed v.db → P a v → IsCovered j (f a v).1)
      → IsCovered j ((m >>= f) w).1
  bind-IsCovered P m f w keyed e go = after-IsCovered P f w (m w) keyed e go

  decide-IsCovered :
      (m : Remaining) (w : World)
      → IsKeyed w.db
      → Scripted m w
      → IsCovered j (decide fates k q m w).1
  unfolding decide
  decide-IsCovered Remaining.not_loaded w keyed c = c
  decide-IsCovered Remaining.insufficient w keyed c = c
  decide-IsCovered (Remaining.left units) w keyed c = persist-IsCovered w keyed c

  after_load-IsCovered :
      (loaded : Bool) (w : World)
      → IsKeyed w.db
      → IsCovered j w
      → IsCovered j (after_load fates k q loaded w).1
  unfolding after_load
  after_load-IsCovered false w keyed c = c
  after_load-IsCovered true w keyed c =
      bind-IsCovered (λ _ v. IsCovered j v) (evict fates.evicted k)
        (λ _. statement fates.second_script (run_reserve_script k q) >>= decide fates k q) w keyed
        (evict-Ends fates.evicted w c)
        (λ _ v keyed_v cv.
          bind-IsCovered Scripted (statement fates.second_script (run_reserve_script k q))
            (decide fates k q) v keyed_v
            (statement-Ends Scripted fates.second_script _ v cv (script-Ends v cv))
            decide-IsCovered)

  after_script-IsCovered :
      (m : Remaining) (w : World)
      → IsKeyed w.db
      → Scripted m w
      → IsCovered j (after_script fates k q m w).1
  unfolding after_script retry_loaded
  after_script-IsCovered Remaining.not_loaded w keyed c =
      bind-IsCovered (λ _ v. IsCovered j v) (load_stock_into_redis fates k) (after_load fates k q) w
        keyed (load-Ends w keyed c) after_load-IsCovered
  after_script-IsCovered Remaining.insufficient w keyed c =
      decide-IsCovered Remaining.insufficient w keyed c
  after_script-IsCovered (Remaining.left units) w keyed c =
      decide-IsCovered (Remaining.left units) w keyed c

-- If the counter of a SKU does not exceed its stock, it does not after a reservation of any SKU
-- either, whatever Redis and the database answer.
pub redis_reserve-IsCovered :
    (fates : Fates) (j k q : ℕ) (w : World)
    → IsKeyed w.db
    → IsCovered j w
    → IsCovered j (redis_reserve fates k q w).1
unfolding redis_reserve
redis_reserve-IsCovered fates j k q w keyed c =
    bind-IsCovered fates j k q (Scripted fates j k q)
      (statement fates.script (run_reserve_script k q)) (after_script fates k q) w keyed
      (statement-Ends fates j k q (Scripted fates j k q) fates.script _ w c
        (script-Ends fates j k q w c))
      (after_script-IsCovered fates j k q)

-- If the counter of a SKU does not exceed its stock, it does not after a release of units of a
-- SKU that has a row either, whatever Redis answers, if the UPDATE of the release runs.
pub redis_release-IsCovered :
    (fates : Fates) (j k q : ℕ) (w : World)
    → fates.give ≡ Fate.runs
    → has_sku k w.db ≡ true
    → IsCovered j w
    → IsCovered j (redis_release fates k q w).1
unfolding redis_release release_redis incremented increment_stock
redis_release-IsCovered fates j k q w runs there c =
    unfold give_stock in ground (arith, stock_of-give_stock j k q w.db there)

-- A release while the counter is missing starts it at the units released, whatever the stock is:
-- a later request for more than those is refused as out of stock.
pub redis_release_starts_counter :
    (fates late : Fates) (k q n : ℕ) (w : World)
    → fates.incr ≡ Fate.runs
    → late.script ≡ Fate.runs
    → w.redis k ≡ none
    → q < n
    → let after = (redis_release fates k q w).1 in
      (after.redis k ≡ some q)
      × ((redis_reserve late k n after).0 ≡ ok (Reserved.refused Refusal.out_of_stock))
unfolding redis_release release_redis incremented redis_reserve run_reserve_script
redis_release_starts_counter fates late k q n w runs script missing more = ground arith
