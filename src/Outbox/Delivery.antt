-- ===== src/Outbox/Delivery.antt =====
-- No event is marked as dispatched unless its email is in the queue.
use flash_core.Common.{
  ℕ, ◌≡◌, refl, Bool, true, false, List, [], ◌∷◌, map, ◌==◌, ◌&&◌, ◌||◌, not, arith,
}
use flash_core.Common.Sequence.{length}
use flash_core.Common.Table.{exists_row, update_where, count_where}
use flash_core.Store.{
  OutboxEvent, OutboxStatus, EventType, Result, ok, err, Error, pure, throw_if, modify, catch,
  ◌>>=◌, ◌>>◌,
}
use flash_core.Outbox.Rounds.{
  EmailJob, Relay, Round, one_of, id_of, first_waiting, email_of, dispatch_type, dispatch_all,
  db_transaction, dispatched_row, mark_all, dispatch_rows, dispatch_batch, failed_row,
  record_dispatch_failure, relay_batch, relay_once,
}

-- The email of event `j` is in the queue.
abbrev pub is_queued : ℕ → List EmailJob → Bool
is_queued j emails = exists_row (λ m. m.event_id == j) emails

abbrev pub is_dispatched : OutboxStatus → Bool
is_dispatched OutboxStatus.waiting = false
is_dispatched OutboxStatus.dispatched = true
is_dispatched OutboxStatus.failed = false

-- Marked without an email.
abbrev pub is_lost : List EmailJob → OutboxEvent → Bool
is_lost emails e = is_dispatched e.status && not (is_queued e.id emails)

abbrev pub lost : Relay → ℕ
lost s = count_where (is_lost s.emails) s.db.outbox

-- What a list of dispatches does: the database stays, no email leaves, and after the last one every
-- event's email is in the queue.
abbrev Queues : List OutboxEvent → Relay → Result (Unit {0}) × Relay → Type 0
Queues events s (ok a, s') =
    (s'.db ≡ s.db)
    × ((j : ℕ)
        → is_queued j s'.emails
          ≡ (exists_row (λ i. i == j) (map id_of events) || is_queued j s.emails))
Queues events s (err e, s') = (j : ℕ) → is_queued j s.emails ≡ true → is_queued j s'.emails ≡ true

abbrev queued : OutboxEvent → Relay → Relay
queued e s = record s { emails = email_of e ∷ s.emails }

Queues-cons :
    (e : OutboxEvent) (events : List OutboxEvent) (s : Relay) (res : Result (Unit {0}) × Relay)
    → Queues events (queued e s) res
    → Queues (e ∷ events) s res
Queues-cons e events s (ok a, s') h = (h.0, λ j. ground (arith, h.1 j))
Queues-cons e events s (err x, s') h = λ j old. ground (arith, h j)

-- The first event is queued and the others follow, or it throws.
dispatch_type-Queues :
    (round : Round) (e : OutboxEvent) (events : List OutboxEvent) (s : Relay) (t : EventType)
    (refused : Bool)
    → round.refused e.id ≡ refused
    → Queues events (queued e s) (dispatch_all round events (queued e s))
    → Queues (e ∷ events) s ((dispatch_type round e t >> dispatch_all round events) s)
unfolding dispatch_type
dispatch_type-Queues round e events s EventType.order_placed true h rest = rw h (λ j old. old)
dispatch_type-Queues round e events s EventType.order_placed false h rest =
    rw h (Queues-cons e events s (dispatch_all round events (queued e s)) rest)
dispatch_type-Queues round e events s (EventType.other code) refused h rest = λ j old. old

dispatch_all-Queues :
    (round : Round) (events : List OutboxEvent) (s : Relay)
    → Queues events s (dispatch_all round events s)
unfolding dispatch_all
dispatch_all-Queues round [] s = (refl, λ j. refl)
dispatch_all-Queues round (e ∷ events) s =
    dispatch_type-Queues round e events s e.event_type (round.refused e.id) refl
      (dispatch_all-Queues round events (queued e s))

-- More emails lose no event.
lost-more :
    (old new : List EmailJob) (table : List OutboxEvent)
    → ((j : ℕ) → is_queued j old ≡ true → is_queued j new ≡ true)
    → count_where (is_lost old) table ≡ 0
    → count_where (is_lost new) table ≡ 0
lost-more old new [] more h = refl
lost-more old new (e ∷ table) more h = ground (arith, lost-more old new table more, more e.id)

lost-mark :
    (now : ℕ) (ids : List ℕ) (old new : List EmailJob) (table : List OutboxEvent)
    → ((j : ℕ) → is_queued j new ≡ (exists_row (λ i. i == j) ids || is_queued j old))
    → count_where (is_lost old) table ≡ 0
    → count_where (is_lost new) (update_where (one_of ids) (dispatched_row now) table) ≡ 0
lost-mark now ids old new [] more h = refl
lost-mark now ids old new (e ∷ table) more h =
    ground (arith, lost-mark now ids old new table more, more e.id)

lost-failed :
    (ids : List ℕ) (emails : List EmailJob) (table : List OutboxEvent)
    → count_where (is_lost emails) table ≡ 0
    → count_where (is_lost emails) (update_where (one_of ids) failed_row table) ≡ 0
lost-failed ids emails [] h = refl
lost-failed ids emails (e ∷ table) h = ground (arith, lost-failed ids emails table)

-- The transaction round the dispatches `res` and the marks.
marked-lost :
    (now n : ℕ) (events : List OutboxEvent) (s : Relay) (res : Result (Unit {0}) × Relay)
    → Queues events s res
    → lost s ≡ 0
    → lost
        (db_transaction
          (λ t.
            ◌>>◌ (λ _. res) (modify (λ s. record s { db = mark_all now events s.db }) >> pure n) t)
          s).1
      ≡ 0
marked-lost now n events s (ok a, s') h none_lost =
    rw h.0 (lost-mark now (map id_of events) s.emails s'.emails s.db.outbox h.1 none_lost)
marked-lost now n events s (err e, s') h none_lost =
    lost-more s.emails s'.emails s.db.outbox h none_lost

dispatch_rows-lost :
    (round : Round) (rows : List OutboxEvent) (s : Relay)
    → lost s ≡ 0
    → lost (db_transaction (dispatch_rows round rows) s).1 ≡ 0
unfolding dispatch_rows
dispatch_rows-lost round [] s none_lost = none_lost
dispatch_rows-lost round (e ∷ events) s none_lost =
    marked-lost round.now (length (e ∷ events)) (e ∷ events) s (dispatch_all round (e ∷ events) s)
      (dispatch_all-Queues round (e ∷ events) s) none_lost

relayed-lost :
    (limit : ℕ) (res : Result ℕ × Relay)
    → lost res.1 ≡ 0
    → lost (catch (λ _. res) (λ e. record_dispatch_failure limit >> pure 0) res.1).1 ≡ 0
unfolding record_dispatch_failure
relayed-lost limit (ok n, s) h = h
relayed-lost limit (err e, s) h =
    lost-failed (map id_of (first_waiting (λ e. true) limit s.db)) s.emails s.db.outbox h

counted-lost :
    (limit : ℕ) (breaks : Bool) (res : Result ℕ × Relay)
    → lost res.1 ≡ 0
    → lost
        (catch
          (λ t. ◌>>=◌ (λ _. res) (λ sent. throw_if breaks Error.query_failed >> pure sent) t)
          (λ e. record_dispatch_failure limit >> pure 0)
          res.1).1
      ≡ 0
unfolding record_dispatch_failure
counted-lost limit true (ok n, s) h = relayed-lost limit (err Error.query_failed, s) h
counted-lost limit false (ok n, s) h = h
counted-lost limit breaks (err e, s) h = relayed-lost limit (err e, s) h

-- If every event marked as dispatched has its email in the queue, this holds after a round of the
-- relay too, whatever the queue answers and whatever else the round meets.
pub relay_once-lost : (round : Round) (s : Relay) → lost s ≡ 0 → lost (relay_once round s).1 ≡ 0
unfolding relay_once relay_batch dispatch_batch
relay_once-lost round s none_lost =
    counted-lost round.batch_size round.count_breaks (dispatch_batch round s) (
      dispatch_rows-lost round (first_waiting (λ e. not (round.locked e.id)) round.batch_size s.db)
        s none_lost)
