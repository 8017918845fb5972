-- ===== src/SaleEvents/Once.antt =====
-- An event is closed once.
use flash_core.Common.{
  ℕ, zero, suc, ◌+◌, ◌≤◌, ◌≡◌, refl, ap, ◌∙◌, true, none, some, List, [], ◌∷◌, map, ◌&&◌, ltb, not,
  arith,
}
use flash_core.Common.Table.{
  find, select, update_where, count_where, find-and, find-none_count, find-update_where, find-holds,
  update_where_absent,
}
use flash_core.Store.{Db, World, SaleEvent, SaleSku, Result, ok, err, pure, transaction, ◌>>◌}
use flash_core.Inventory.{Reserver}
use flash_core.Orders.{
  CancelledItem, release_to, release_stock, has_sale_id, increment_sale_event_stock,
  release_user_quota,
}
use flash_core.SaleEvents.Publishing.{is_event}
use flash_core.SaleEvents.Closing.{
  Returned, closable, is_leftover, returned_row, return_leftover, return_leftovers, settle_closed,
  settle_ended,
}
use flash_core.SaleEvents.Returning.{closed_db, not_zero}

-- The UPDATE that closes an event leaves nothing that a second one would change.
closed_count :
    (now later id : ℕ) (events : List SaleEvent)
    → count_where (is_event id) events ≤ 1
    → 1 ≤ count_where (closable now id) events
    → count_where
        (closable later id)
        (update_where (closable now id) (λ e. record e { is_settled = true }) events)
      ≡ 0
closed_count now later id [] one some_row = refl
closed_count now later id (e ∷ events) one some_row = ground (
  arith,
  closed_count now later id events,
  not_event now id events,
  not_event_after now later id events,
)
  where
    not_event :
        (now id : ℕ) (events : List SaleEvent)
        → count_where (is_event id) events ≡ 0
        → count_where (closable now id) events ≡ 0
    not_event now id [] h = refl
    not_event now id (e ∷ events) h = ground (arith, not_event now id events)

    not_event_after :
        (now later id : ℕ) (events : List SaleEvent)
        → count_where (is_event id) events ≡ 0
        → count_where
            (closable later id)
            (update_where (closable now id) (λ e. record e { is_settled = true }) events)
          ≡ 0
    not_event_after now later id [] h = refl
    not_event_after now later id (e ∷ events) h =
        ground (arith, not_event_after now later id events)

return_leftovers-events :
    (id : ℕ) (rows : List SaleSku) (db : Db)
    → (return_leftovers id rows db).1.sale_events ≡ db.sale_events
unfolding return_leftovers return_leftover
return_leftovers-events id [] db = refl
return_leftovers-events id (row ∷ rows) db = return_leftovers-events id rows _

settle_ended_does_nothing :
    (later id : ℕ) (db : Db)
    → count_where (closable later id) db.sale_events ≡ 0
    → settle_ended later id db ≡ (ok none, db)
unfolding settle_ended settle_closed
settle_ended_does_nothing later id db none_left = ground (
  arith,
  update_where_absent (closable later id) (λ e. record e { is_settled = true }) db.sale_events,
)

-- What the transaction leaves in the table of events when it has closed one.
closed_rows-events :
    (id : ℕ) (rows : List SaleSku) (answer : List Returned) (events : List SaleEvent) (db : Db)
    (res : Result (Unit {0}) × Db)
    → res.1.sale_events ≡ events
    → let m = transaction (λ _. ◌>>◌ (λ _. res) (pure (some (map returned_row rows))) db) db in
      m.0 ≡ ok (some answer) → m.1.sale_events ≡ events
closed_rows-events id rows answer events db (ok a, d) same h = same
closed_rows-events id rows answer events db (err e, d) same h = absurd (cc)

settle_closed-events :
    (now id closed : ℕ) (answer : List Returned) (db : Db)
    → let m = transaction (λ _. settle_closed id closed (closed_db 0 id now db)) db in
      m.0 ≡ ok (some answer)
      → (1 ≤ closed)
        × (m.1.sale_events
            ≡ update_where (closable now id) (λ e. record e { is_settled = true }) db.sale_events)
unfolding settle_closed
settle_closed-events now id zero answer db h = absurd (cc)
settle_closed-events now id (suc n) answer db h = (
  omega arith,
  rw (not_zero n) (
      closed_rows-events id (select (is_leftover id) db.sale_skus) answer
        (update_where (closable now id) (λ e. record e { is_settled = true }) db.sale_events) db
        (return_leftovers id (select (is_leftover id) db.sale_skus) (closed_db 0 id now db))
        (return_leftovers-events id (select (is_leftover id) db.sale_skus) (closed_db 0 id now db))
        (rw (not_zero n) at h)),
)

-- Where the id is that of one event, an event is closed once: after a call that closed it, every
-- further one, at any time, finds nothing to close and changes nothing.
pub settle_ended_once :
    (now later id : ℕ) (db : Db) (rows : List Returned)
    → count_where (is_event id) db.sale_events ≤ 1
    → (settle_ended now id db).0 ≡ ok (some rows)
    → let after = (settle_ended now id db).1 in settle_ended later id after ≡ (ok none, after)
settle_ended_once now later id db rows one first =
    settle_ended_does_nothing later id (settle_ended now id db).1
      (rw (left.1) (closed_count now later id db.sale_events one left.0))
  where
    left :
        (1 ≤ count_where (closable now id) db.sale_events)
        × ((settle_ended now id db).1.sale_events
            ≡ update_where (closable now id) (λ e. record e { is_settled = true }) db.sale_events)
    left =
        unfold settle_ended in
        settle_closed-events now id (count_where (closable now id) db.sale_events) rows db first

settled-uncountable :
    (later id : ℕ) (db : Db) (e : SaleEvent)
    → count_where (is_event id) db.sale_events ≤ 1
    → find (is_event id) db.sale_events ≡ some e
    → e.is_settled ≡ true
    → count_where (closable later id) db.sale_events ≡ 0
settled-uncountable later id db e one found done =
    find-none_count (closable later id) db.sale_events (
      ground (
        arith,
        find-and (is_event id) (λ e. e.is_published && (not e.is_settled && ltb e.ends_at later))
            db.sale_events one,
      ))

release_stock-events :
    (reserver : Reserver) (sale : ℕ) (item : CancelledItem) (w : World)
    → item.sale_event_sku_id ≡ some sale
    → (release_stock reserver item w).1.db.sale_events ≡ w.db.sale_events
unfolding release_stock release_to increment_sale_event_stock release_user_quota
release_stock-events reserver sale item w origin = rw origin (ground arith)

-- Where the event's id is unique, what a cancelled order gives back to an item of an event that
-- is closed already stays there: the units are in the item's stock, and no later call closes the
-- event again.
pub release_stock_after_settling :
    (reserver : Reserver) (later sale : ℕ) (item : CancelledItem) (w : World) (e : SaleEvent)
    (s : SaleSku)
    → item.sale_event_sku_id ≡ some sale
    → find (has_sale_id sale) w.db.sale_skus ≡ some s
    → count_where (is_event s.sale_event_id) w.db.sale_events ≤ 1
    → find (is_event s.sale_event_id) w.db.sale_events ≡ some e
    → e.is_settled ≡ true
    → let after = (release_stock reserver item w).1.db in
      (find (has_sale_id sale) after.sale_skus
        ≡ some (record s { stock = s.stock + item.quantity }))
      × (settle_ended later s.sale_event_id after ≡ (ok none, after))
unfolding release_stock release_to increment_sale_event_stock release_user_quota
release_stock_after_settling reserver later sale item w e s origin there one found done = (
  ground (
    arith,
    find-holds (has_sale_id sale) w.db.sale_skus s there,
    find-update_where (has_sale_id sale) (has_sale_id sale)
        (λ s. record s { stock = s.stock + item.quantity }) (λ x. refl) w.db.sale_skus,
  ),
  settle_ended_does_nothing later s.sale_event_id (release_stock reserver item w).1.db (
      ap (count_where (closable later s.sale_event_id))
        (release_stock-events reserver sale item w origin)
      ∙ settled-uncountable later s.sale_event_id w.db e one found done),
)
