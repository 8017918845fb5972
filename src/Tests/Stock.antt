-- ===== src/Tests/Stock.antt =====
-- The reservation strategies on the shop.
use flash_core.Common.{ℕ, ◌≤◌, ◌<◌, ◌≡◌, refl, some, arith}
use flash_core.Store.{Fate, ok}
use flash_core.Inventory.{Reserved, Refusal, verdict, take_stock, Keeps}
use flash_core.Inventory.Optimistic
use flash_core.Inventory.Optimistic.{optimistic}
use flash_core.Inventory.Pessimistic.{pessimistic_reserve}
use flash_core.Inventory.RedisAtomic.{redis_atomic, redis_reserve, redis_release}
use flash_core.Inventory.Stock.{stock_of}
use flash_core.Inventory.Contract.{
  optimistic-reserve-verdict, optimistic-Keeps, pessimistic_reserve-verdict, redis_atomic-Keeps,
  redis_reserve-IsCovered, IsCovered, redis_release_starts_counter,
}
use flash_core.Tests.Shop.{shop, shop_db, shop-IsKeyed, one_conflict, calm}

-- Two shirts at the second attempt.
optimistic_run : ((optimistic one_conflict).reserve 1 2 shop).0 ≡ ok (Reserved.reserved 500 2)
unfolding optimistic Optimistic.try_once
optimistic_run = refl

pessimistic_run : (pessimistic_reserve 1 8 shop).0 ≡ ok (Reserved.refused Refusal.out_of_stock)
unfolding pessimistic_reserve
pessimistic_run = refl

-- The counter for SKU 2 is loaded first.
redis_run :
    let (r, w) = redis_reserve calm 2 1 shop in
    (r ≡ ok (Reserved.reserved 2_000_000_000 1)) × (w.redis 2 ≡ some 2)
unfolding redis_reserve
redis_run = (refl, refl)

optimistic-reserve-verdict_example :
    (optimistic one_conflict).reserve 1 2 shop
    ≡ (ok (Reserved.reserved 500 2), record shop { db = take_stock 1 2 shop_db })
unfolding verdict
optimistic-reserve-verdict_example =
    optimistic-reserve-verdict one_conflict 1 2 1 shop shop-IsKeyed (omega arith) lost refl refl
  where
    lost : (i : ℕ) → 1 ≤ i → i < 2 → one_conflict.update i ≡ Fate.conflicts
    lost i h k = ground arith

optimistic-Keeps_example : Keeps Fate.runs (optimistic one_conflict)
optimistic-Keeps_example = optimistic-Keeps one_conflict

pessimistic_reserve-verdict_example :
    pessimistic_reserve 1 8 shop ≡ (ok (Reserved.refused Refusal.out_of_stock), shop)
unfolding verdict
pessimistic_reserve-verdict_example = pessimistic_reserve-verdict 1 8 shop shop-IsKeyed

-- The connection is lost between INCRBY and the UPDATE.
redis_atomic-Keeps_example : Keeps Fate.breaks (redis_atomic (record calm { give = Fate.breaks }))
redis_atomic-Keeps_example = redis_atomic-Keeps (record calm { give = Fate.breaks })

redis_reserve-IsCovered_example : IsCovered 1 (redis_reserve calm 1 4 shop).1
unfolding stock_of
redis_reserve-IsCovered_example = redis_reserve-IsCovered calm 1 1 4 shop shop-IsKeyed (omega arith)

redis_release_starts_counter_example :
    ((redis_release calm 2 1 shop).1.redis 2 ≡ some 1)
    × ((redis_reserve calm 2 3 (redis_release calm 2 1 shop).1).0
        ≡ ok (Reserved.refused Refusal.out_of_stock))
redis_release_starts_counter_example =
    redis_release_starts_counter calm calm 2 1 3 shop refl refl refl (omega arith)
