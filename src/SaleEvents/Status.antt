-- ===== src/SaleEvents/Status.antt =====
-- `saleEventStatus` of sale-event.dto.ts: computed from the clock, never stored. `OPEN` is `on_sale`.
use flash_core.Common.{ℕ, ◌≡◌, Bool, true, false, ltb, not, if◌then◌else◌, arith}
use flash_core.Store.{SaleEvent}
use flash_core.Orders.{is_open}

pub data SaleEventStatus : Type 0 where
  draft scheduled on_sale ended : SaleEventStatus

unfoldable pub sale_event_status : ℕ → SaleEvent → SaleEventStatus
sale_event_status now e =
    if not e.is_published
    then SaleEventStatus.draft
    else if ltb now e.starts_at
    then SaleEventStatus.scheduled
    else if ltb e.ends_at now
    then SaleEventStatus.ended
    else SaleEventStatus.on_sale

abbrev pub shows_open : SaleEventStatus → Bool
shows_open SaleEventStatus.draft = false
shows_open SaleEventStatus.scheduled = false
shows_open SaleEventStatus.on_sale = true
shows_open SaleEventStatus.ended = false

-- What the catalogue shows as open at a moment is what the UPDATE on the stock sells at that moment.
pub sale_event_status-is_open :
    (now : ℕ) (e : SaleEvent) → shows_open (sale_event_status now e) ≡ is_open now e
unfolding sale_event_status
sale_event_status-is_open now e = ground arith
