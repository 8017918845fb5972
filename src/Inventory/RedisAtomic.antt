-- ===== src/Inventory/RedisAtomic.antt =====
-- RedisAtomicReserver (strategies/redis.reserver.ts). `Fates` says how Redis and PostgreSQL answer
-- each statement of one call, and whether the key is gone again between SET and the second script.
use flash_core.Common.{ℕ, ◌+◌, ◌-◌, Bool, true, false, Option, none, some, ltb, if◌then◌else◌}
use flash_core.Store.{
  World, Action, ok, err, Error, Fate, pure, throw, modify, on_db, statement, set_key, ◌>>=◌, ◌>>◌,
}
use flash_core.Inventory.Statements.{
  Refusal, decrement_stock_conditional, read_sku_stock, increment_stock,
}
use flash_core.Inventory.Interface.{Reserved, Reserver}

pub record Fates : Type 0 where
  pub script : Fate
  pub read : Fate
  pub set : Fate
  pub evicted : Bool
  pub second_script : Fate
  pub update : Fate
  pub incr : Fate
  pub give : Fate

-- The script's -2, -1 and the units that are left.
pub data Remaining : Type 0 where
  not_loaded insufficient : Remaining
  left : ℕ → Remaining

unfoldable pub script_on : ℕ → ℕ → Option ℕ → Action World Remaining
script_on k q none = pure Remaining.not_loaded
script_on k q (some stock) = if ltb stock q then pure Remaining.insufficient else (do
  modify (λ w. record w { redis = set_key w.redis k (some (stock - q)) })
  pure (Remaining.left (stock - q)))

-- RESERVE_LUA, which Redis runs without interruption.
unfoldable pub run_reserve_script : ℕ → ℕ → Action World Remaining
unfolding script_on
run_reserve_script k q w = script_on k q (w.redis k) w

-- `SET key stock NX`: a key that is there stays.
unfoldable pub set_if_absent : ℕ → ℕ → Option ℕ → Option ℕ
set_if_absent k stock none = some stock
set_if_absent k stock (some old) = some old

unfoldable pub load_stock_into_redis : Fates → ℕ → Action World Bool
unfolding set_if_absent read_sku_stock
load_stock_into_redis fates k = do
  sku ← statement fates.read (on_db (read_sku_stock k))
  elim sku [
    | none ↦ pure false
    | some stock ↦ do
      statement fates.set
          (modify λ w. record w { redis = set_key w.redis k (set_if_absent k stock (w.redis k)) })
      pure true
  ]

-- `INCRBY`: a key that is missing counts from 0.
unfoldable pub incremented : ℕ → Option ℕ → Option ℕ
incremented q none = some q
incremented q (some stock) = some (stock + q)

-- A failure is logged and swallowed.
unfoldable pub release_redis : Fate → ℕ → ℕ → Action World (Unit {0})
unfolding incremented
release_redis Fate.runs k q =
    modify λ w. record w { redis = set_key w.redis k (incremented q (w.redis k)) }
release_redis Fate.conflicts k q = pure tt
release_redis Fate.breaks k q = pure tt

-- Redis has taken the units: the database follows, or Redis gets them back.
unfoldable pub persist : Fates → ℕ → ℕ → Action World Reserved
unfolding release_redis decrement_stock_conditional
persist fates k q w =
    let (r, w') = statement fates.update (on_db (decrement_stock_conditional k q)) w in
    elim r [
      | ok updated ↦ elim updated [
        | some price ↦ (ok (Reserved.reserved price 1), w')
        | none ↦ (release_redis fates.incr k q >> pure (Reserved.refused Refusal.out_of_stock)) w'
      ]
      | err e ↦ (release_redis fates.incr k q >> throw e) w'
    ]

unfoldable pub decide : Fates → ℕ → ℕ → Remaining → Action World Reserved
unfolding persist
decide fates k q Remaining.not_loaded = throw Error.internal
decide fates k q Remaining.insufficient = pure (Reserved.refused Refusal.out_of_stock)
decide fates k q (Remaining.left units) = persist fates k q

unfoldable pub evict : Bool → ℕ → Action World (Unit {0})
evict true k = modify λ w. record w { redis = set_key w.redis k none }
evict false k = pure tt

unfoldable pub after_load : Fates → ℕ → ℕ → Bool → Action World Reserved
unfolding run_reserve_script decide evict
after_load fates k q false = pure (Reserved.refused Refusal.sku_not_found)
after_load fates k q true = do
  evict fates.evicted k
  remaining ← statement fates.second_script (run_reserve_script k q)
  decide fates k q remaining

-- The branch that loads the key and runs the script once more.
unfoldable pub retry_loaded : Fates → ℕ → ℕ → Action World Reserved
unfolding load_stock_into_redis after_load
retry_loaded fates k q = do loaded ← load_stock_into_redis fates k; after_load fates k q loaded

unfoldable pub after_script : Fates → ℕ → ℕ → Remaining → Action World Reserved
unfolding retry_loaded decide
after_script fates k q Remaining.not_loaded = retry_loaded fates k q
after_script fates k q Remaining.insufficient = decide fates k q Remaining.insufficient
after_script fates k q (Remaining.left units) = decide fates k q (Remaining.left units)

unfoldable pub redis_reserve : Fates → ℕ → ℕ → Action World Reserved
unfolding run_reserve_script after_script
redis_reserve fates k q = do
  remaining ← statement fates.script (run_reserve_script k q)
  after_script fates k q remaining

unfoldable pub redis_release : Fates → ℕ → ℕ → Action World (Unit {0})
unfolding release_redis increment_stock
redis_release fates k q =
    release_redis fates.incr k q >> statement fates.give (on_db (increment_stock k q))

unfoldable pub redis_atomic : Fates → Reserver
unfolding redis_reserve redis_release
redis_atomic fates = record { reserve = redis_reserve fates; release = redis_release fates }
