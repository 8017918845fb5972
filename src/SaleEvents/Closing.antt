-- ===== src/SaleEvents/Closing.antt =====
-- `settleEnded`, `findEndedUnsettled` and `settleEndedEvents`: events that are over give what they
-- did not sell back to the SKUs.
use flash_core.Common.{
  ℕ, suc, ◌+◌, Bool, true, Option, none, some, List, [], ◌∷◌, ◌==◌, ◌&&◌, ltb, not, if◌then◌else◌,
  map,
}
use flash_core.Common.Sequence.{take, sort_by}
use flash_core.Common.Table.{select, update_where, count_where, sum_by}
use flash_core.Store.{Db, SaleEvent, SaleSku, Action, pure, gets, modify, transaction, ◌>>=◌, ◌>>◌}
use flash_core.Inventory.{has_id, give_units}
use flash_core.SaleEvents.Publishing.{is_event, is_item_of}

pub record Returned : Type 0 where
  pub sku_id : ℕ
  pub returned : ℕ

-- The WHERE clause that lets exactly one caller close the event, `now` being PostgreSQL's clock.
abbrev pub closable : ℕ → ℕ → SaleEvent → Bool
closable now id e = is_event id e && (e.is_published && (not e.is_settled && ltb e.ends_at now))

abbrev pub is_leftover : ℕ → SaleSku → Bool
is_leftover id s = is_item_of id s && ltb 0 s.stock

abbrev pub emptied : SaleSku → SaleSku
emptied s = record s { stock = 0 }

unfoldable pub return_leftover : ℕ → SaleSku → Action Db (Unit {0})
return_leftover id row = do
  modify λ db. record db { skus = update_where (has_id row.sku_id) (give_units row.stock) db.skus }
  modify λ db. record db {
    sale_skus = update_where (λ s. is_item_of id s && s.sku_id == row.sku_id) emptied db.sale_skus;
  }

unfoldable pub return_leftovers : ℕ → List SaleSku → Action Db (Unit {0})
unfolding return_leftover
return_leftovers id [] = pure tt
return_leftovers id (row ∷ rows) = return_leftover id row >> return_leftovers id rows

abbrev pub returned_row : SaleSku → Returned
returned_row row = record { sku_id = row.sku_id; returned = row.stock }

-- The `UPDATE` of the flag changed `closed` rows.
unfoldable pub settle_closed : ℕ → ℕ → Action Db (Option (List Returned))
unfolding return_leftovers
settle_closed id closed = if closed == 0 then pure none else (do
  leftovers ← gets λ db. select (is_leftover id) db.sale_skus
  return_leftovers id leftovers
  pure (some (map returned_row leftovers)))

unfoldable pub settle_ended : ℕ → ℕ → Action Db (Option (List Returned))
unfolding settle_closed
settle_ended now id = transaction do
  closed ← gets λ db. count_where (closable now id) db.sale_events
  modify λ db. record db {
    sale_events =
        update_where (closable now id) (λ e. record e { is_settled = true }) db.sale_events;
  }
  settle_closed id closed

-- `now` is Node's clock here.
unfoldable pub find_ended_unsettled : ℕ → ℕ → Action Db (List ℕ)
find_ended_unsettled now limit = gets λ db.
    map (λ e. e.id)
      (take limit (
        sort_by (λ e. e.ends_at)
          (select (λ e. e.is_published && (not e.is_settled && ltb e.ends_at now)) db.sale_events)))

pub record Closed : Type 0 where
  pub events : ℕ
  pub returned : ℕ

unfoldable pub count_closed : Closed → Option (List Returned) → Closed
count_closed sofar none = sofar
count_closed sofar (some rows) = record {
  events = suc sofar.events;
  returned = sofar.returned + sum_by (λ r. r.returned) rows;
}

unfoldable pub settle_each : ℕ → List ℕ → Closed → Action Db Closed
unfolding settle_ended count_closed
settle_each now [] sofar = pure sofar
settle_each now (id ∷ ids) sofar = do
  result ← settle_ended now id
  settle_each now ids (count_closed sofar result)

-- `node_now` and `now` are the two clocks.
unfoldable pub settle_ended_events : ℕ → ℕ → ℕ → Action Db Closed
unfolding find_ended_unsettled settle_each
settle_ended_events node_now now limit = do
  ids ← find_ended_unsettled node_now limit
  settle_each now ids (record { events = 0; returned = 0 })
