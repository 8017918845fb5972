-- ===== src/Orders/Expiry.antt =====
-- OrderExpiryService (order.expiry.service.ts) and `findExpiredPendingOrderIds`.
use flash_core.Common.{
  ℕ, ◌+◌, Bool, true, false, Option, none, some, List, [], ◌∷◌, map, ◌&&◌, leb, if◌then◌else◌,
}
use flash_core.Common.Sequence.{take, sort_by}
use flash_core.Common.Table.{select}
use flash_core.Store.{
  Db, World, Order, is_pending, CancelledBy, Action, pure, gets, on_db, ◌>>=◌, ◌>>◌,
}
use flash_core.Inventory.{Reserver}
use flash_core.Orders.Cancellation.{CancelScope, CancelledItem, cancel_pending_order, release_all}
use flash_core.Orders.Cancel.{count_cancelled}

abbrev pub sweep_batch : ℕ
sweep_batch = 100

abbrev pub is_overdue : ℕ → Order → Bool
is_overdue now o = is_pending o.status && leb o.expires_at now

-- `orderBy: { expiresAt: 'asc' }, take: limit`.
unfoldable pub find_expired_pending_order_ids : ℕ → ℕ → Action Db (List ℕ)
find_expired_pending_order_ids now limit = gets λ db.
    map (λ o. o.id) (take limit (sort_by (λ o. o.expires_at) (select (is_overdue now) db.orders)))

unfoldable pub expire_with : Reserver → Option (List CancelledItem) → Action World Bool
unfolding release_all count_cancelled
expire_with reserver none = pure false
expire_with reserver (some items) = do
  release_all reserver items
  count_cancelled CancelledBy.expiry
  pure true

unfoldable pub cancel_expired : Reserver → ℕ → ℕ → Action World Bool
unfolding expire_with
cancel_expired reserver now id = do
  items ← on_db (cancel_pending_order now id CancelScope.expired)
  expire_with reserver items

-- The loop of `sweepExpired`, with the orders cancelled so far. PostgreSQL's clock at the UPDATEs
-- is taken as one value; Node's clock chose the ids.
unfoldable pub sweep_each : Reserver → ℕ → List ℕ → ℕ → Action World ℕ
unfolding cancel_expired
sweep_each reserver now [] cancelled = pure cancelled
sweep_each reserver now (id ∷ ids) cancelled = do
  done ← cancel_expired reserver now id
  sweep_each reserver now ids (if done then cancelled + 1 else cancelled)

unfoldable pub sweep_expired : Reserver → ℕ → ℕ → Action World ℕ
unfolding sweep_each find_expired_pending_order_ids
sweep_expired reserver node_now now = do
  ids ← on_db (find_expired_pending_order_ids node_now sweep_batch)
  sweep_each reserver now ids 0
