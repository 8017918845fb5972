-- ===== src/Retention/Sweep.antt =====
-- RetentionRepository and RetentionService (retention.repository.ts, retention.service.ts).
use flash_core.Common.{
  ℕ, zero, suc, ◌+◌, ◌-◌, ◌*◌, Bool, true, false, Option, none, some, List, [], ◌∷◌, ◌==◌, ◌&&◌,
  ◌||◌, ltb, leb, if◌then◌else◌,
}
use flash_core.Common.Sequence.{take, sort_with}
use flash_core.Common.Table.{select, delete_where, count_where}
use flash_core.Store.{
  OutboxEvent, OutboxStatus, Consumer, ProcessedEvent, Action, pure, gets, modify, ◌>>=◌, ◌>>◌,
}

-- `key IN (...)`
module _ {A : Type 0} (key : A → ℕ) where
  abbrev pub is_in : List A → A → Bool
  is_in [] y = false
  is_in (c ∷ cs) y = key c == key y || is_in cs y

-- `DELETE ... WHERE key IN (SELECT key ... WHERE old ORDER BY age LIMIT batch)` on one table.
module _ {A : Type 0} (key : A → ℕ) (old : A → Bool) (age : A → ℕ) where
  abbrev pub oldest_first : A → A → Bool
  oldest_first x y = leb (age x) (age y)

  abbrev pub batch_of : ℕ → List A → List A
  batch_of batch table = take batch (sort_with oldest_first (select old table))

  unfoldable pub delete_batch : ℕ → Action (List A) ℕ
  delete_batch batch = do
    deleted ← gets λ table. count_where (is_in key (batch_of batch table)) table
    modify λ table. delete_where (is_in key (batch_of batch table)) table
    pure deleted

abbrev pub is_dispatched : OutboxStatus → Bool
is_dispatched OutboxStatus.waiting = false
is_dispatched OutboxStatus.dispatched = true
is_dispatched OutboxStatus.failed = false

abbrev pub is_failed : OutboxStatus → Bool
is_failed OutboxStatus.waiting = false
is_failed OutboxStatus.dispatched = false
is_failed OutboxStatus.failed = true

abbrev pub is_before : ℕ → Option ℕ → Bool
is_before older_than none = false
is_before older_than (some t) = ltb t older_than

abbrev pub old_event : ℕ → OutboxEvent → Bool
old_event older_than e = is_dispatched e.status && is_before older_than e.dispatched_at

abbrev pub dispatch_time : OutboxEvent → ℕ
dispatch_time e = elim e.dispatched_at [ none ↦ 0 | some t ↦ t ]

abbrev pub old_mark : ℕ → ProcessedEvent → Bool
old_mark older_than m = ltb m.processed_at older_than

abbrev pub consumer_number : Consumer → ℕ
consumer_number Consumer.order_payment = 0
consumer_number Consumer.order_email_confirm = 1

-- The pair `(event_id, consumer)` as one number.
abbrev pub mark_key : ProcessedEvent → ℕ
mark_key m = m.event_id * 2 + consumer_number m.consumer

unfoldable pub delete_dispatched_outbox : ℕ → ℕ → Action (List OutboxEvent) ℕ
unfolding delete_batch
delete_dispatched_outbox batch older_than =
    delete_batch (λ e. e.id) (old_event older_than) dispatch_time batch

unfoldable pub delete_processed_events : ℕ → ℕ → Action (List ProcessedEvent) ℕ
unfolding delete_batch
delete_processed_events batch older_than =
    delete_batch mark_key (old_mark older_than) (λ m. m.processed_at) batch

abbrev pub max_rounds : ℕ
max_rounds = 20

-- `deleteInRounds`: a batch that is not full is the last.
module _ {S : Type 0} (delete_once : Action S ℕ) (batch : ℕ) where
  abbrev pub next_round : (ℕ → Action S ℕ) → ℕ → ℕ → Action S ℕ
  next_round rest total deleted =
      if ltb deleted batch then pure (total + deleted) else rest (total + deleted)

  unfoldable pub rounds_from : ℕ → ℕ → Action S ℕ
  rounds_from zero total = pure total
  rounds_from (suc left) total = delete_once >>= next_round (rounds_from left) total

  unfoldable pub delete_in_rounds : Action S ℕ
  unfolding rounds_from
  delete_in_rounds = rounds_from max_rounds 0

-- The two tables, and the metrics of a run.
pub record Archive : Type 0 where
  pub outbox : List OutboxEvent
  pub processed : List ProcessedEvent
  pub outbox_failed : ℕ
  pub outbox_deleted : ℕ
  pub processed_deleted : ℕ

abbrev pub on_outbox : {A : Type 0} → Action (List OutboxEvent) A → Action Archive A
on_outbox m s = let (r, t) = m s.outbox in (r, record s { outbox = t })

abbrev pub on_processed : {A : Type 0} → Action (List ProcessedEvent) A → Action Archive A
on_processed m s = let (r, t) = m s.processed in (r, record s { processed = t })

unfoldable pub count_failed_outbox : Action Archive ℕ
count_failed_outbox = gets λ s. count_where (λ e. is_failed e.status) s.outbox

abbrev pub day : ℕ
day = 24 * 60 * 60 * 1000

unfoldable pub sweep : ℕ → ℕ → ℕ → Action Archive (ℕ × ℕ)
unfolding delete_dispatched_outbox delete_processed_events delete_in_rounds count_failed_outbox
sweep batch retention_days now = do
  outbox ←
      on_outbox
        (delete_in_rounds (delete_dispatched_outbox batch (now - retention_days * day)) batch)
  processed ←
      on_processed
        (delete_in_rounds (delete_processed_events batch (now - retention_days * day)) batch)
  failed ← count_failed_outbox
  modify λ s. record s {
    outbox_failed = failed;
    outbox_deleted = s.outbox_deleted + outbox;
    processed_deleted = s.processed_deleted + processed;
  }
  pure (outbox, processed)
