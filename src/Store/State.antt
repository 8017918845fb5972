-- ===== src/Store/State.antt =====
-- What a request handler of the order module can change: the database, the stock counters in
-- Redis, the delayed jobs and the counters of src/infra/metrics/metrics.service.ts.
use flash_core.Common.{ℕ, Option, List, ◌==◌, if◌then◌else◌}
use flash_core.Store.Rows.{Db}
use flash_core.Store.Effects.{Action, Error, throw}

-- The `result` label of `orders_placed` and the `by` label of `orders_cancelled`.
pub data PlacedLabel : Type 0 where
  created duplicate out_of_stock sku_not_found per_user_limit sale_not_open : PlacedLabel

pub data CancelledBy : Type 0 where
  user expiry : CancelledBy

-- The job `expire-<order id>`, with its delay in milliseconds.
pub record ExpireJob : Type 0 where
  pub order_id : ℕ
  pub delay : ℕ

pub record World : Type 0 where
  pub db : Db
  pub redis : ℕ → Option ℕ
  pub expire_jobs : List ExpireJob
  pub placed : List PlacedLabel
  pub cancelled : List CancelledBy

abbrev pub on_db : {A : Type 0} → Action Db A → Action World A
on_db m w = let (r, d) = m w.db in (r, record w { db = d })

-- How PostgreSQL or Redis answers one statement: it runs, or it throws with no effect.
pub data Fate : Type 0 where
  runs conflicts breaks : Fate

abbrev pub statement : {S A : Type 0} → Fate → Action S A → Action S A
statement Fate.runs m = m
statement Fate.conflicts m = throw Error.conflict
statement Fate.breaks m = throw Error.query_failed

-- One key of Redis set to a value.
abbrev pub set_key : {A : Type 0} → (ℕ → Option A) → ℕ → Option A → ℕ → Option A
set_key cache k v j = if k == j then v else cache j
