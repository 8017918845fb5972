-- ===== src/Notifications.antt =====
-- `OrderNotifier.sendConfirmation` (src/modules/order/order.notifier.ts): the mark is written before
-- the mail is sent, and taken back when a retry may help.
use flash_core.Common.{ℕ, Bool, true, false, Option, none, some, List, [], ◌∷◌, if◌then◌else◌, not}
use flash_core.Store.{
  Db, Fate, Consumer, Action, Result, ok, err, Error, pure, throw, throw_if, modify, catch, ◌>>=◌,
  ◌>>◌,
}
use flash_core.Payments.{claim, release}
pub mod Once

-- What `MailSender.send` does: it returns, or throws an error of one of the two kinds.
pub data MailFate : Type 0 where
  sends fails fails_for_good : MailFate

pub record Confirmation : Type 0 where
  pub event_id : ℕ
  pub order_id : ℕ
  pub user_id : ℕ
  pub total_vnd : ℕ

pub record Mail : Type 0 where
  pub to : ℕ
  pub order_id : ℕ
  pub total_vnd : ℕ

pub record Post : Type 0 where
  pub db : Db
  pub sent : List Mail

-- One run: the clock, the addresses of the users, whether they can be read, and the sender.
pub record Run : Type 0 where
  pub now : ℕ
  pub email_of_user : ℕ → Option ℕ
  pub lookup_breaks : Bool
  pub fate : MailFate

abbrev pub in_db : {A : Type 0} → Action Db A → Action Post A
in_db m s = let (r, d) = m s.db in (r, record s { db = d })

unfoldable pub deliver : MailFate → Mail → Action Post (Unit {0})
deliver MailFate.sends mail = modify λ s. record s { sent = mail ∷ s.sent }
deliver MailFate.fails mail = throw Error.mail_failed
deliver MailFate.fails_for_good mail = throw Error.permanent_mail_error

-- The body of the `try`.
unfoldable pub send_to : Run → Confirmation → Option ℕ → Action Post (Unit {0})
unfolding deliver
send_to run payload none = throw Error.permanent_mail_error
send_to run payload (some email) =
    deliver run.fate
      (record { to = email; order_id = payload.order_id; total_vnd = payload.total_vnd })

unfoldable pub try_send : Run → Confirmation → Action Post (Unit {0})
unfolding send_to
try_send run payload = do
  throw_if run.lookup_breaks Error.query_failed
  send_to run payload (run.email_of_user payload.user_id)

abbrev pub is_permanent : Error → Bool
is_permanent Error.permanent_mail_error = true
is_permanent _ = false

-- The `catch`: the mark goes only if the error is not permanent, and the error goes on.
unfoldable pub give_up : ℕ → Error → Action Post (Unit {0})
unfolding release
give_up event e =
    if is_permanent e
    then throw e
    else (in_db (release event Consumer.order_email_confirm) >> throw e)

unfoldable pub send_claimed : Run → Confirmation → Bool → Action Post (Unit {0})
unfolding try_send give_up
send_claimed run payload false = pure tt
send_claimed run payload true = catch (try_send run payload) (give_up payload.event_id)

unfoldable pub send_confirmation : Run → Confirmation → Action Post (Unit {0})
unfolding send_claimed claim
send_confirmation run payload = do
  claimed ← in_db (claim run.now payload.event_id Consumer.order_email_confirm)
  send_claimed run payload claimed
