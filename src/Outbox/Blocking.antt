-- ===== src/Outbox/Blocking.antt =====
-- What one event that cannot be dispatched does to the events around it.
use flash_core.Common.{
  ℕ, suc, ◌+◌, ◌≡◌, ◌≤◌, ◌<◌, ◌⊎◌, inl, inr, Bool, true, false, Bool-cases, refl, List, [], ◌∷◌,
  map, not, leb, arith, if◌then◌else◌,
}
use flash_core.Common.Sequence.{length}
use flash_core.Common.Table.{exists_row, update_where}
use flash_core.Store.{
  OutboxEvent, OutboxStatus, EventType, Result, ok, err, Error, pure, throw_if, modify, catch,
  ◌>>=◌, ◌>>◌,
}
use flash_core.Outbox.Rounds.{
  Relay, Round, one_of, id_of, first_waiting, email_of, dispatch_type, dispatch_all, db_transaction,
  mark_all, dispatch_rows, dispatch_batch, failed_row, record_dispatch_failure, relay_batch,
  relay_once,
}

-- The event has no consumer, or the queue refuses its job.
abbrev pub is_blocked_as : Round → ℕ → EventType → Bool
is_blocked_as round id EventType.order_placed = round.refused id
is_blocked_as round id (EventType.other code) = true

abbrev pub is_blocked : Round → OutboxEvent → Bool
is_blocked round e = is_blocked_as round e.id e.event_type

-- A row that is charged has one attempt more, and is failed with its fifth one.
abbrev pub Charged : Bool → OutboxEvent → OutboxEvent → Type 0
Charged false e e' = e' ≡ e
Charged true e e' =
    ((e.attempts < 4)
      × (e' ≡ record e { attempts = suc e.attempts; status = OutboxStatus.waiting }))
    ⊎ ((4 ≤ e.attempts)
        × (e' ≡ record e { attempts = suc e.attempts; status = OutboxStatus.failed }))

-- Row by row, the rows with these ids are charged and the others stay.
abbrev pub Charges : List ℕ → List OutboxEvent → List OutboxEvent → Type 0
Charges ids [] [] = Unit
Charges ids [] (e' ∷ after) = ⊥
Charges ids (e ∷ table) [] = ⊥
Charges ids (e ∷ table) (e' ∷ after) = Charged (one_of ids e) e e' × Charges ids table after

failed_row-Charged : (e : OutboxEvent) → Charged true e (failed_row e)
failed_row-Charged e = elim (Bool-cases (leb 5 (e.attempts + 1))) [
  | inl spent ↦ inr (ground arith)
  | inr fresh ↦ inl (ground arith)
]

failed_if : (hit : Bool) (e : OutboxEvent) → Charged hit e (if hit then failed_row e else e)
failed_if true e = failed_row-Charged e
failed_if false e = refl

failed_rows-Charges :
    (ids : List ℕ) (table : List OutboxEvent)
    → Charges ids table (update_where (one_of ids) failed_row table)
failed_rows-Charges ids [] = tt
failed_rows-Charges ids (e ∷ table) = (failed_if (one_of ids e) e, failed_rows-Charges ids table)

-- A run that throws, the database as it was.
abbrev Throws : {A : Type 0} → Relay → Result A × Relay → Type 0
Throws s (ok a, s') = ⊥
Throws s (err e, s') = s'.db ≡ s.db

dispatch_type-Throws :
    (round : Round) (e : OutboxEvent) (events : List OutboxEvent) (s : Relay) (t : EventType)
    (refused : Bool)
    → round.refused e.id ≡ refused
    → (is_blocked_as round e.id t ≡ false
        → Throws s (dispatch_all round events (record s { emails = email_of e ∷ s.emails })))
    → Throws s ((dispatch_type round e t >> dispatch_all round events) s)
unfolding dispatch_type
dispatch_type-Throws round e events s EventType.order_placed true h rest = rw h refl
dispatch_type-Throws round e events s EventType.order_placed false h rest = rw h (rest h)
dispatch_type-Throws round e events s (EventType.other code) refused h rest = refl

dispatch_all-Throws :
    (round : Round) (events : List OutboxEvent) (s : Relay)
    → exists_row (is_blocked round) events ≡ true
    → Throws s (dispatch_all round events s)
unfolding dispatch_all
dispatch_all-Throws round [] s blocked = absurd (cc)
dispatch_all-Throws round (e ∷ events) s blocked =
    dispatch_type-Throws round e events s e.event_type (round.refused e.id) refl (λ free.
      dispatch_all-Throws round events (record s { emails = email_of e ∷ s.emails })
        (ground (arith, free)))

-- The transaction round a run that throws.
rolled_back :
    (now n : ℕ) (events : List OutboxEvent) (s : Relay) (res : Result (Unit {0}) × Relay)
    → Throws s res
    → Throws s (
        db_transaction
          (λ t.
            ◌>>◌ (λ _. res) (modify (λ s. record s { db = mark_all now events s.db }) >> pure n) t)
          s)
rolled_back now n events s (err e, s') h = refl
rolled_back now n events s (ok a, s') h = absurd h

dispatch_rows-Throws :
    (round : Round) (rows : List OutboxEvent) (s : Relay)
    → exists_row (is_blocked round) rows ≡ true
    → Throws s (db_transaction (dispatch_rows round rows) s)
unfolding dispatch_rows
dispatch_rows-Throws round [] s blocked = absurd (cc)
dispatch_rows-Throws round (e ∷ rows) s blocked =
    rolled_back round.now (length (e ∷ rows)) (e ∷ rows) s (dispatch_all round (e ∷ rows) s)
      (dispatch_all-Throws round (e ∷ rows) s blocked)

abbrev in_front : ℕ → Relay → List ℕ
in_front limit s = map id_of (first_waiting (λ r. true) limit s.db)

abbrev Blocks : ℕ → Relay → Result ℕ × Relay → Type 0
Blocks limit s (r, s') = (r ≡ ok 0) × Charges (in_front limit s) s.db.outbox s'.db.outbox

failure-Blocks :
    (limit : ℕ) (breaks : Bool) (s : Relay) (res : Result ℕ × Relay)
    → Throws s res
    → Blocks limit s (
        catch
          (λ t. ◌>>=◌ (λ _. res) (λ sent. throw_if breaks Error.query_failed >> pure sent) t)
          (λ e. record_dispatch_failure limit >> pure 0)
          s)
unfolding record_dispatch_failure
failure-Blocks limit breaks s (ok n, s') h = absurd h
failure-Blocks limit breaks s (err e, s') h =
    rw h (refl, failed_rows-Charges (in_front limit s) s.db.outbox)

-- If a round meets an event without a consumer, or one whose job the queue refuses, anywhere in its
-- batch, nothing of the batch is marked as dispatched: the first waiting rows, up to the batch
-- size, locked or not, healthy or not, have one attempt more, those that had four or more are
-- failed and the others wait on; every other row stays, and the round reports 0.
pub relay_once_blocked :
    (round : Round) (s : Relay)
    → exists_row
        (is_blocked round)
        (first_waiting (λ e. not (round.locked e.id)) round.batch_size s.db)
      ≡ true
    → ((relay_once round s).0 ≡ ok 0)
      × Charges
          (map id_of (first_waiting (λ e. true) round.batch_size s.db))
          s.db.outbox
          (relay_once round s).1.db.outbox
unfolding relay_once relay_batch dispatch_batch
relay_once_blocked round s blocked =
    failure-Blocks round.batch_size round.count_breaks s (dispatch_batch round s) (
      dispatch_rows-Throws round
        (first_waiting (λ e. not (round.locked e.id)) round.batch_size s.db) s blocked)
