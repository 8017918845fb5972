-- ===== src/Payments/Once.antt =====
-- IdempotencyRepository: the key (event_id, consumer) of `processed_events` as the arbiter.
use flash_core.Common.{ℕ, Bool, true, false, [], ◌∷◌, ◌++◌, ◌&&◌, ◌==◌, if◌then◌else◌}
use flash_core.Common.Table.{exists_row, delete_where}
use flash_core.Store.{
  Db, Consumer, ProcessedEvent, Action, Error, pure, throw, throw_if, gets, modify, transaction,
  catch, is_unique_violation, ◌>>=◌, ◌>>◌,
}

abbrev pub same_consumer : Consumer → Consumer → Bool
same_consumer Consumer.order_payment Consumer.order_payment = true
same_consumer Consumer.order_payment Consumer.order_email_confirm = false
same_consumer Consumer.order_email_confirm Consumer.order_payment = false
same_consumer Consumer.order_email_confirm Consumer.order_email_confirm = true

abbrev pub is_mark : ℕ → Consumer → ProcessedEvent → Bool
is_mark event consumer e = e.event_id == event && same_consumer e.consumer consumer

-- `processedEvent.create`.
unfoldable pub insert_mark : ℕ → ℕ → Consumer → Action Db (Unit {0})
insert_mark now event consumer = do
  taken ← gets λ db. exists_row (is_mark event consumer) db.processed
  throw_if taken Error.unique_violation
  modify λ db. record db {
    processed =
        db.processed ++ (record { event_id = event; consumer = consumer; processed_at = now } ∷ []);
  }

-- `runOnceInTransaction`: the mark and the work together, or neither. The work hands a value back.
abbrev pub Outcome : Type 0 → Type 0
Outcome A = Bool × A

unfoldable pub run_once_in_transaction :
    {A : Type 0} → ℕ → ℕ → Consumer → A → Action Db A → Action Db (Outcome A)
unfolding insert_mark
run_once_in_transaction now event consumer skipped work =
    catch (transaction do insert_mark now event consumer; value ← work; pure (true, value))
      (λ e. if is_unique_violation e then pure (false, skipped) else throw e)

-- `claim` and `release`, for work outside the database.
unfoldable pub claim : ℕ → ℕ → Consumer → Action Db Bool
unfolding insert_mark
claim now event consumer =
    catch (insert_mark now event consumer >> pure true)
      (λ e. if is_unique_violation e then pure false else throw e)

unfoldable pub release : ℕ → Consumer → Action Db (Unit {0})
release event consumer =
    modify λ db. record db { processed = delete_where (is_mark event consumer) db.processed }
