-- ===== src/Outbox/Rounds.antt =====
-- `dispatchBatch`, `recordDispatchFailure` and `relayOnce`.
use flash_core.Common.{
  ℕ, ◌+◌, Bool, true, false, some, List, [], ◌∷◌, map, ◌==◌, ◌&&◌, not, leb, if◌then◌else◌,
}
use flash_core.Common.Sequence.{length, take, sort_by}
use flash_core.Common.Table.{select, exists_row, update_where}
use flash_core.Store.{
  Db, OutboxEvent, OutboxStatus, EventType, Action, ok, err, Error, pure, throw, throw_if, gets,
  modify, catch, ◌>>=◌, ◌>>◌,
}

abbrev pub max_dispatch_attempts : ℕ
max_dispatch_attempts = 5

-- The job `email.confirm`, with the fields of its payload that name the event and the order.
pub record EmailJob : Type 0 where
  pub event_id : ℕ
  pub order_id : ℕ
  pub user_id : ℕ
  pub total_vnd : ℕ

pub record Relay : Type 0 where
  pub db : Db
  pub emails : List EmailJob

-- What one round meets: PostgreSQL's clock, OUTBOX_BATCH_SIZE, the rows that another worker has
-- locked (SKIP LOCKED), the events for which `queue.add` throws, and whether `countByStatus` throws.
pub record Round : Type 0 where
  pub now : ℕ
  pub batch_size : ℕ
  pub locked : ℕ → Bool
  pub refused : ℕ → Bool
  pub count_breaks : Bool

abbrev pub is_waiting : OutboxStatus → Bool
is_waiting OutboxStatus.waiting = true
is_waiting OutboxStatus.dispatched = false
is_waiting OutboxStatus.failed = false

abbrev pub one_of : List ℕ → OutboxEvent → Bool
one_of ids e = exists_row (λ i. i == e.id) ids

abbrev pub id_of : OutboxEvent → ℕ
id_of e = e.id

-- `ORDER BY created_at LIMIT`, of the waiting rows that the test lets through.
unfoldable pub first_waiting : (OutboxEvent → Bool) → ℕ → Db → List OutboxEvent
first_waiting free limit db =
    take limit (sort_by (λ e. e.created_at) (select (λ e. is_waiting e.status && free e) db.outbox))

abbrev pub email_of : OutboxEvent → EmailJob
email_of e = record {
  event_id = e.id;
  order_id = e.aggregate_id;
  user_id = e.user_id;
  total_vnd = e.total_vnd;
}

-- `OutboxRelay.dispatch`.
unfoldable pub dispatch_type : Round → OutboxEvent → EventType → Action Relay (Unit {0})
dispatch_type round event EventType.order_placed =
    if round.refused event.id
    then throw Error.query_failed
    else modify (λ s. record s { emails = email_of event ∷ s.emails })
dispatch_type round event (EventType.other code) = throw Error.internal

unfoldable pub dispatch_all : Round → List OutboxEvent → Action Relay (Unit {0})
unfolding dispatch_type
dispatch_all round [] = pure tt
dispatch_all round (event ∷ events) =
    dispatch_type round event event.event_type >> dispatch_all round events

-- A throw rolls back the database; what is in the queue stays there.
abbrev pub db_transaction : {A : Type 0} → Action Relay A → Action Relay A
db_transaction m s =
    let (r, s') = m s in elim r [ ok a ↦ (ok a, s') | err e ↦ (err e, record s' { db = s.db }) ]

abbrev pub dispatched_row : ℕ → OutboxEvent → OutboxEvent
dispatched_row now e = record e {
  status = OutboxStatus.dispatched;
  dispatched_at = some now;
  attempts = e.attempts + 1;
}

abbrev pub mark_all : ℕ → List OutboxEvent → Db → Db
mark_all now events db = record db {
  outbox = update_where (one_of (map id_of events)) (dispatched_row now) db.outbox;
}

unfoldable pub dispatch_rows : Round → List OutboxEvent → Action Relay ℕ
unfolding dispatch_all
dispatch_rows round [] = pure 0
dispatch_rows round (e ∷ events) = do
  dispatch_all round (e ∷ events)
  modify λ s. record s { db = mark_all round.now (e ∷ events) s.db }
  pure (length (e ∷ events))

unfoldable pub dispatch_batch : Round → Action Relay ℕ
unfolding dispatch_rows first_waiting
dispatch_batch round = db_transaction do
  rows ← gets λ s. first_waiting (λ e. not (round.locked e.id)) round.batch_size s.db
  dispatch_rows round rows

abbrev pub failed_row : OutboxEvent → OutboxEvent
failed_row e = record e {
  attempts = e.attempts + 1;
  status =
      if leb max_dispatch_attempts (e.attempts + 1)
      then OutboxStatus.failed
      else OutboxStatus.waiting;
}

-- It chooses its rows anew, locked or not.
unfoldable pub record_dispatch_failure : ℕ → Action Relay (Unit {0})
unfolding first_waiting
record_dispatch_failure limit = modify λ s. record s {
  db = record s.db {
    outbox =
        update_where (one_of (map id_of (first_waiting (λ e. true) limit s.db))) failed_row
          s.db.outbox;
  };
}

-- The gauge is set from `countByStatus`, which may throw when the batch is committed already.
unfoldable pub relay_batch : Round → Action Relay ℕ
unfolding dispatch_batch
relay_batch round = do
  sent ← dispatch_batch round
  throw_if round.count_breaks Error.query_failed
  pure sent

unfoldable pub relay_once : Round → Action Relay ℕ
unfolding relay_batch record_dispatch_failure
relay_once round =
    catch (relay_batch round) (λ e. record_dispatch_failure round.batch_size >> pure 0)
