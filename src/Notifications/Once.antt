-- ===== src/Notifications/Once.antt =====
-- An event's mail is sent once.
use flash_core.Common.{
  ℕ, ◌≡◌, inl, inr, Bool, true, false, List, [], ◌∷◌, ◌++◌, ==_refl, arith, Bool-cases,
}
use flash_core.Common.Table.{exists_row, delete_where, find-append}
use flash_core.Store.{Consumer, ProcessedEvent, Result, ok, err, Error}
use flash_core.Payments.{is_mark, claim, release, insert_mark}
use flash_core.Notifications.{
  Confirmation, Post, Run, is_permanent, deliver, send_to, try_send, give_up, send_claimed,
  send_confirmation,
}

abbrev pub has_mark : ℕ → Post → Bool
has_mark event s = exists_row (is_mark event Consumer.order_email_confirm) s.db.processed

abbrev mark_of : Run → Confirmation → ProcessedEvent
mark_of run payload = record {
  event_id = payload.event_id;
  consumer = Consumer.order_email_confirm;
  processed_at = run.now;
}

abbrev marked : Run → Confirmation → Post → Post
marked run payload s = record s {
  db = record s.db { processed = s.db.processed ++ (mark_of run payload ∷ []) };
}

send_confirmation_marked :
    (run : Run) (payload : Confirmation) (s : Post)
    → has_mark payload.event_id s ≡ true
    → send_confirmation run payload s ≡ (ok tt, s)
unfolding send_confirmation claim insert_mark send_claimed
send_confirmation_marked run payload s old = ground arith

send_confirmation_new :
    (run : Run) (payload : Confirmation) (s : Post)
    → has_mark payload.event_id s ≡ false
    → send_confirmation run payload s ≡ send_claimed run payload true (marked run payload s)
unfolding send_confirmation claim insert_mark
send_confirmation_new run payload s new = ground arith

-- The mark of this run is the only one that `release` takes away.
release-mark :
    (run : Run) (payload : Confirmation) (marks : List ProcessedEvent)
    → exists_row (is_mark payload.event_id Consumer.order_email_confirm) marks ≡ false
    → delete_where
        (is_mark payload.event_id Consumer.order_email_confirm)
        (marks ++ (mark_of run payload ∷ []))
      ≡ marks
release-mark run payload [] new = ground (arith, ==_refl payload.event_id)
release-mark run payload (m ∷ marks) new = ground (arith, release-mark run payload marks)

-- A run for an event that has no mark, which throws an error that is not permanent, leaves the
-- database and the mails sent as it found them.
pub send_confirmation_retries :
    (run : Run) (payload : Confirmation) (s : Post) (e : Error)
    → has_mark payload.event_id s ≡ false
    → (send_confirmation run payload s).0 ≡ err e
    → is_permanent e ≡ false
    → send_confirmation run payload s ≡ (err e, s)
unfolding send_claimed try_send send_to deliver give_up release
send_confirmation_retries run payload s e new failed mendable =
    rw (send_confirmation_new run payload s new) ground
      (arith, release-mark run payload s.db.processed new, send_confirmation_new run payload s new)

-- A run that is not to be repeated: it returned, or its error is permanent.
abbrev pub is_final : Result (Unit {0}) → Bool
is_final (ok a) = true
is_final (err e) = is_permanent e

marked-has_mark :
    (run : Run) (payload : Confirmation) (s : Post)
    → has_mark payload.event_id s ≡ false
    → has_mark payload.event_id (marked run payload s) ≡ true
marked-has_mark run payload s new = ground (
  arith,
  find-append (is_mark payload.event_id Consumer.order_email_confirm) s.db.processed
      (mark_of run payload ∷ []),
  ==_refl payload.event_id,
)

final-has_mark :
    (run : Run) (payload : Confirmation) (s : Post)
    → is_final (send_claimed run payload true s).0 ≡ true
    → has_mark payload.event_id s ≡ true
    → has_mark payload.event_id (send_claimed run payload true s).1 ≡ true
unfolding send_claimed try_send send_to deliver give_up release
final-has_mark run payload s final there = ground arith

-- After a run that returned, or that threw a permanent error, every further run for that event, with
-- any sender, returns without sending and changes nothing.
pub send_confirmation_once :
    (run again : Run) (payload : Confirmation) (s : Post)
    → is_final (send_confirmation run payload s).0 ≡ true
    → let after = (send_confirmation run payload s).1 in
      send_confirmation again payload after ≡ (ok tt, after)
send_confirmation_once run again payload s final =
    send_confirmation_marked again payload (send_confirmation run payload s).1
      (elim (Bool-cases (has_mark payload.event_id s)) [
        | inl old ↦ rw (send_confirmation_marked run payload s old) old
        | inr new ↦ rw (send_confirmation_new run payload s new) (
            final-has_mark run payload (marked run payload s)
              (rw (send_confirmation_new run payload s new) at final)
              (marked-has_mark run payload s new))
      ])
