-- ===== src/Retention/Bounds.antt =====
-- What a run of `deleteInRounds` and of `sweep` (retention.service.ts) removes.
use Prim.Native.Nat.{min}
use flash_core.Common.{
  ℕ, zero, suc, ◌+◌, ◌-◌, ◌*◌, ◌≤◌, ◌≡◌, refl, ap, ◌∙◌, Bool, true, false, Option, none, some, ◌&&◌,
  List, ltb, arith, if◌then◌else◌,
}
use mathlib.Core.Path.{subst}
use flash_core.Common.Table.{select, count_where}
use flash_core.Store.{
  Result, ok, err, pure, modify, ◌>>=◌, ◌>>◌, OutboxStatus, OutboxEvent, ProcessedEvent,
}
use flash_core.Retention.{
  is_in, batch_of, delete_batch, delete_in_rounds, rounds_from, max_rounds, is_dispatched,
  is_before, old_event, dispatch_time, mark_key, delete_dispatched_outbox, delete_processed_events,
  Archive, sweep, on_outbox, on_processed, count_failed_outbox, day,
}
use flash_core.Retention.Batches.{
  IsUnique, is_kept, survivors, deleted-batch, kept-survivors, survivors-IsUnique, old-survivors,
}

module _ {A : Type 0} (key : A → ℕ) (old : A → Bool) (age : A → ℕ) where
  -- `total` and `n` more rows are deleted, all of them old ones, and the other rows stay.
  abbrev pub Deletes : ℕ → ℕ → List A → Result ℕ × List A → Type 0
  Deletes total n xs res =
      (res.0 ≡ ok (total + n))
      × (count_where old res.1 + n ≡ count_where old xs)
      × (select (is_kept key old age) res.1 ≡ select (is_kept key old age) xs)

  abbrev deleted : ℕ → List A → ℕ
  deleted batch xs = count_where (is_in key (batch_of key old age batch xs)) xs

  -- `min` of a number of rounds and one more.
  min-suc :
      (batch left o o' d : ℕ)
      → d ≡ min batch o
      → o' + d ≡ o
      → batch ≤ d
      → d + min (left * batch) o' ≡ min (suc left * batch) o
  min-suc batch left o o' d h k full = omega arith

  min_last :
      (batch left o d : ℕ) → d ≡ min batch o → ltb d batch ≡ true → d ≡ min (suc left * batch) o
  min_last batch left o d h short = ground arith

  round-Deletes :
      (batch left total : ℕ) (xs : List A)
      → IsUnique key xs
      → Deletes
          (total + deleted batch xs)
          (min (left * batch) (count_where old (survivors key old age batch xs)))
          (survivors key old age batch xs)
          (rounds_from
            (delete_batch key old age batch)
            batch
            left
            (total + deleted batch xs)
            (survivors key old age batch xs))
      → (full : Bool) → ltb (deleted batch xs) batch ≡ full
      → Deletes total (min (suc left * batch) (count_where old xs)) xs (
          (if full
              then pure (total + deleted batch xs)
              else rounds_from
                  (delete_batch key old age batch)
                  batch
                  left
                  (total + deleted batch xs))
            (survivors key old age batch xs))
  round-Deletes batch left total xs unique rest true short =
      let last =
        min_last batch left (count_where old xs) (deleted batch xs)
          (deleted-batch key old age batch xs unique) short in
      (
        ap (λ n. ok (total + n)) last,
        omega (
          arith,
          last,
          old-survivors key old age batch xs unique,
          deleted-batch key old age batch xs unique,
        ),
        kept-survivors key old age batch xs unique,
      )
  round-Deletes batch left total xs unique rest false full =
      let more =
        min-suc batch left (count_where old xs) (count_where old (survivors key old age batch xs))
          (deleted batch xs) (deleted-batch key old age batch xs unique)
          (rw (deleted-batch key old age batch xs unique)
            (old-survivors key old age batch xs unique))
          (ground arith) in
      (
        rest.0 ∙ ap ok (omega (arith, more)),
        omega (
          arith,
          more,
          rest.1,
          old-survivors key old age batch xs unique,
          deleted-batch key old age batch xs unique,
        ),
        rest.2 ∙ kept-survivors key old age batch xs unique,
      )

  rounds-Deletes :
      (batch left total : ℕ) (xs : List A)
      → IsUnique key xs
      → Deletes total
          (min (left * batch) (count_where old xs))
          xs
          (rounds_from (delete_batch key old age batch) batch left total xs)
  unfolding rounds_from delete_batch
  rounds-Deletes batch zero total xs unique = (ap ok (omega arith), omega arith, refl)
  rounds-Deletes batch (suc left) total xs unique =
      round-Deletes batch left total xs unique
        (rounds-Deletes batch left (total + deleted batch xs) (survivors key old age batch xs)
          (survivors-IsUnique key old age batch xs unique))
        (ltb (deleted batch xs) batch) refl

-- An event that was dispatched before `older`, and a mark from before it.
abbrev pub is_due : ℕ → OutboxStatus → Option ℕ → Bool
is_due older OutboxStatus.waiting at = false
is_due older OutboxStatus.failed at = false
is_due older OutboxStatus.dispatched none = false
is_due older OutboxStatus.dispatched (some t) = ltb t older

abbrev pub due_event : ℕ → OutboxEvent → Bool
due_event older e = is_due older e.status e.dispatched_at

abbrev pub due_mark : ℕ → ProcessedEvent → Bool
due_mark older m = ltb m.processed_at older

due_status :
    (older : ℕ) (status : OutboxStatus) (at : Option ℕ)
    → (is_dispatched status && is_before older at) ≡ is_due older status at
due_status older OutboxStatus.waiting at = refl
due_status older OutboxStatus.failed at = refl
due_status older OutboxStatus.dispatched none = refl
due_status older OutboxStatus.dispatched (some t) = refl

old_event-due_event : (older : ℕ) → old_event older ≡ due_event older
old_event-due_event older = λ i e. due_status older e.status e.dispatched_at i

abbrev older_than : ℕ → ℕ → ℕ
older_than retention_days now = now - retention_days * day

abbrev outbox_limit : ℕ → ℕ → List OutboxEvent → ℕ
outbox_limit batch older rows = min (max_rounds * batch) (count_where (due_event older) rows)

abbrev marks_limit : ℕ → ℕ → List ProcessedEvent → ℕ
marks_limit batch older rows = min (max_rounds * batch) (count_where (due_mark older) rows)

-- What a run of the sweep says of the tables it started with.
abbrev pub Sweeps : ℕ → ℕ → Archive → Result (ℕ × ℕ) × Archive → Type 0
Sweeps batch older s run =
    (run.0 ≡ ok (outbox_limit batch older s.outbox, marks_limit batch older s.processed))
    × Deletes (λ e. e.id) (due_event older) dispatch_time 0 (outbox_limit batch older s.outbox)
        s.outbox (ok (outbox_limit batch older s.outbox), run.1.outbox)
    × Deletes mark_key (due_mark older) (λ m. m.processed_at) 0
        (marks_limit batch older s.processed) s.processed
        (ok (marks_limit batch older s.processed), run.1.processed)

-- The sweep once both tables are cleaned.
abbrev finished :
    Archive
    → Result ℕ × List OutboxEvent
    → Result ℕ × List ProcessedEvent
    → Result (ℕ × ℕ) × Archive
finished s events marks =
    (do
      outbox ← on_outbox (λ rows. events)
      processed ← on_processed (λ rows. marks)
      failed ← count_failed_outbox
      modify λ t. record t {
        outbox_failed = failed;
        outbox_deleted = t.outbox_deleted + outbox;
        processed_deleted = t.processed_deleted + processed;
      }
      pure (outbox, processed))
      s

finished-Sweeps :
    (batch older : ℕ) (s : Archive) (events : Result ℕ × List OutboxEvent)
    (marks : Result ℕ × List ProcessedEvent)
    → Deletes
        (λ e. e.id)
        (due_event older)
        dispatch_time
        0
        (outbox_limit batch older s.outbox)
        s.outbox
        events
    → Deletes mark_key
        (due_mark older)
        (λ m. m.processed_at)
        0
        (marks_limit batch older s.processed)
        s.processed
        marks
    → Sweeps batch older s (finished s events marks)
unfolding count_failed_outbox
finished-Sweeps batch older s (ok n, rows) (ok m, left) h k =
    (ground (arith, h.0, k.0), (ap ok (omega arith), h.1, h.2), (ap ok (omega arith), k.1, k.2))
finished-Sweeps batch older s (ok n, rows) (err e, left) h k = absurd (cc)
finished-Sweeps batch older s (err e, rows) marks h k = absurd (cc)

-- A sweep ends, and deletes exactly as many events that were dispatched before the retention period,
-- and as many idempotency marks from before it, as there are, but no more than 20 batches of each; every
-- other row stays, an event that waits or has failed among them. The ids of the events and the keys of
-- the marks are unique.
pub sweep-Sweeps :
    (batch retention_days now : ℕ) (s : Archive)
    → IsUnique (λ e. e.id) s.outbox
    → IsUnique mark_key s.processed
    → Sweeps batch (older_than retention_days now) s (sweep batch retention_days now s)
unfolding sweep delete_in_rounds delete_dispatched_outbox delete_processed_events
sweep-Sweeps batch retention_days now s unique unique_marks =
    let older : ℕ = older_than retention_days now in
    finished-Sweeps batch older s _ _
      (subst
        (λ old.
          Deletes (λ e. e.id) old dispatch_time 0
            (min (max_rounds * batch) (count_where old s.outbox)) s.outbox
            (delete_in_rounds (delete_dispatched_outbox batch older) batch s.outbox))
        (old_event-due_event older)
        (rounds-Deletes (λ e. e.id) (old_event older) dispatch_time batch max_rounds 0 s.outbox
          unique))
      (rounds-Deletes mark_key (due_mark older) (λ m. m.processed_at) batch max_rounds 0 s.processed
        unique_marks)
