-- ===== src/Tests/Cleaning.antt =====
-- The clean-up of the outbox.
use flash_core.Common.{ℕ, ◌+◌, ◌*◌, ◌≡◌, refl, Option, none, some, [], ◌∷◌, arith}
use flash_core.Store.{OutboxEvent, OutboxStatus, EventType, Consumer, ProcessedEvent, ok}
use flash_core.Retention.{Archive, sweep, day}
use flash_core.Retention.Bounds.{Sweeps, sweep-Sweeps}

abbrev event : ℕ → OutboxStatus → Option ℕ → OutboxEvent
event id status at = record {
  id = id;
  event_type = EventType.order_placed;
  aggregate_id = id + 100;
  user_id = 7;
  total_vnd = 5000;
  status = status;
  attempts = 1;
  created_at = 10;
  dispatched_at = at;
}

abbrev mark : ℕ → ℕ → ProcessedEvent
mark event_id at = record {
  event_id = event_id;
  consumer = Consumer.order_payment;
  processed_at = at;
}

abbrev old_archive : Archive
old_archive = record {
  outbox =
      event 1 OutboxStatus.dispatched (some 500)
      ∷ event 2 OutboxStatus.failed none
      ∷ event 3 OutboxStatus.dispatched (some (10 * day))
      ∷ event 4 OutboxStatus.dispatched (some 400)
      ∷ [];
  processed = mark 1 500 ∷ mark 2 (10 * day) ∷ [];
  outbox_failed = 0;
  outbox_deleted = 0;
  processed_deleted = 0;
}

sweep_run : (sweep 1 5 (12 * day) old_archive).0 ≡ ok (2, 1)
unfolding sweep
sweep_run = refl

sweep-Sweeps_example : Sweeps 1 (7 * day) old_archive (sweep 1 5 (12 * day) old_archive)
sweep-Sweeps_example =
    sweep-Sweeps 1 5 (12 * day) old_archive (λ k. ground arith) (λ k. ground arith)
