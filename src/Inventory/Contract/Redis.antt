-- ===== src/Inventory/Contract/Redis.antt =====
-- The Redis strategy: the contract under every fault, the counter against the stock in PostgreSQL,
-- and what a missing key does to a release.
use mathlib.Core.Path.{subst}
use flash_core.Common.{Bool, ℕ, ◌≡◌, refl, arith, true, false}
use flash_core.Store.{Action, World, Result, ok, err, Fate, statement, ◌>>=◌}
use flash_core.Inventory.Statements.{increment_stock}
use flash_core.Inventory.Interface.{
  Reserved, give_stock, IsKeyed, Moves, Grants, Gives, Keeps, IsSound, Keeps-IsSound,
}
use flash_core.Inventory.RedisAtomic.{
  Fates, Remaining, run_reserve_script, load_stock_into_redis, release_redis, persist, decide,
  evict, after_load, after_script, retry_loaded, redis_reserve, redis_release, redis_atomic,
}
use flash_core.Inventory.Contract.Conditional.{decrement_stock_conditional_lem}

module _ (fates : Fates) (k q : ℕ) where
  persist-Grants : (w : World) → IsKeyed w.db → Grants k q w (persist fates k q w)
  unfolding persist
  persist-Grants w keyed = ground (arith, decrement_stock_conditional_lem k q w.db keyed)

  decide-Grants : (m : Remaining) (w : World) → IsKeyed w.db → Grants k q w (decide fates k q m w)
  unfolding decide
  decide-Grants Remaining.not_loaded w keyed = refl
  decide-Grants Remaining.insufficient w keyed = refl
  decide-Grants (Remaining.left units) w keyed = persist-Grants w keyed

  Grants-moved :
      (w v : World) (res : Result Reserved × World)
      → Moves w w.db v
      → Grants k q v res
      → Grants k q w res
  Grants-moved w v (ok (Reserved.reserved price attempts), v') moved g = ground arith
  Grants-moved w v (ok (Reserved.refused reason), v') moved g = ground arith
  Grants-moved w v (err e, v') moved g = ground arith

  script-Moves : (w : World) → Moves w w.db (run_reserve_script k q w).1
  unfolding run_reserve_script
  script-Moves w = ground arith

  load-Moves : (w : World) → Moves w w.db (load_stock_into_redis fates k w).1
  unfolding load_stock_into_redis
  load-Moves w = ground arith

  evict-Moves : (gone : Bool) (w : World) → Moves w w.db (evict gone k w).1
  unfolding evict
  evict-Moves true w = refl
  evict-Moves false w = refl

  statement-Moves :
      {A : Type 0} (fate : Fate) (m : Action World A) (w : World)
      → Moves w w.db (m w).1
      → Moves w w.db (statement fate m w).1
  statement-Moves Fate.runs m w moved = moved
  statement-Moves Fate.conflicts m w moved = refl
  statement-Moves Fate.breaks m w moved = refl

  after-Grants :
      {A : Type 0} (f : A → Action World Reserved) (w : World) (res : Result A × World)
      → IsKeyed w.db
      → Moves w w.db res.1
      → ((a : A) (v : World) → IsKeyed v.db → Grants k q v (f a v))
      → Grants k q w (◌>>=◌ (λ _. res) f w)
  after-Grants f w (ok a, v) keyed moved go =
      Grants-moved w v (f a v) moved (go a v (rw moved keyed))
  after-Grants f w (err e, v) keyed moved go = moved

  -- A part that touches no table, and then one that keeps the contract.
  bind-Grants :
      {A : Type 0} (m : Action World A) (f : A → Action World Reserved) (w : World)
      → IsKeyed w.db
      → Moves w w.db (m w).1
      → ((a : A) (v : World) → IsKeyed v.db → Grants k q v (f a v))
      → Grants k q w ((m >>= f) w)
  bind-Grants m f w keyed moved go = after-Grants f w (m w) keyed moved go

  after_load-Grants :
      (loaded : Bool) (w : World) → IsKeyed w.db → Grants k q w (after_load fates k q loaded w)
  unfolding after_load
  after_load-Grants false w keyed = refl
  after_load-Grants true w keyed =
      bind-Grants (evict fates.evicted k)
        (λ _. statement fates.second_script (run_reserve_script k q) >>= decide fates k q) w keyed
        (evict-Moves fates.evicted w)
        (λ _ v keyed_v.
          bind-Grants (statement fates.second_script (run_reserve_script k q)) (decide fates k q) v
            keyed_v (statement-Moves fates.second_script _ v (script-Moves v)) decide-Grants)

  after_script-Grants :
      (m : Remaining) (w : World) → IsKeyed w.db → Grants k q w (after_script fates k q m w)
  unfolding after_script retry_loaded
  after_script-Grants Remaining.not_loaded w keyed =
      bind-Grants (load_stock_into_redis fates k) (after_load fates k q) w keyed (load-Moves w)
        after_load-Grants
  after_script-Grants Remaining.insufficient w keyed = decide-Grants Remaining.insufficient w keyed
  after_script-Grants (Remaining.left units) w keyed = decide-Grants (Remaining.left units) w keyed

  redis_reserve-Grants : (w : World) → IsKeyed w.db → Grants k q w (redis_reserve fates k q w)
  unfolding redis_reserve
  redis_reserve-Grants w keyed =
      bind-Grants (statement fates.script (run_reserve_script k q)) (after_script fates k q) w keyed
        (statement-Moves fates.script _ w (script-Moves w)) after_script-Grants

module _ (k q : ℕ) (w : World) where
  -- INCRBY, which never throws, and then the UPDATE.
  redis_release-Gives : (fates : Fates) → Gives fates.give k q w (redis_release fates k q w)
  unfolding redis_release release_redis increment_stock give_stock
  redis_release-Gives fates = ground arith

-- The Redis strategy keeps the contract whatever Redis and the database answer. Where SKU ids are
-- unique, it grants only what the database grants and takes exactly that, and a reservation that it
-- refuses or that throws leaves the database as it was. A release gives back exactly its units
-- where its UPDATE runs; where the UPDATE fails it throws that error and the database is as it was.
pub redis_atomic-Keeps : (fates : Fates) → Keeps fates.give (redis_atomic fates)
unfolding redis_atomic
redis_atomic-Keeps fates = record {
  reserve_keeps = λ k q w keyed. redis_reserve-Grants fates k q w keyed;
  release_keeps = λ k q w. redis_release-Gives k q w fates;
}

redis_atomic-IsSound : (fates : Fates) → fates.give ≡ Fate.runs → IsSound (redis_atomic fates)
redis_atomic-IsSound fates runs =
    Keeps-IsSound (redis_atomic fates)
      (subst (λ give. Keeps give (redis_atomic fates)) runs (redis_atomic-Keeps fates))
