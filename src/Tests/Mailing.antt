-- ===== src/Tests/Mailing.antt =====
-- Confirmation mails of the shop.
use flash_core.Common.{◌≡◌, refl, false, none, some, [], ◌∷◌, ◌==◌, if◌then◌else◌}
use flash_core.Store.{ok, err, Error}
use flash_core.Notifications.{MailFate, Confirmation, Post, Run, send_confirmation}
use flash_core.Notifications.Once.{send_confirmation_once, send_confirmation_retries}
use flash_core.Tests.Shop.{shop_db}

abbrev good_run : Run
good_run = record {
  now = 700;
  email_of_user = λ u. if u == 100 then some 4000 else none;
  lookup_breaks = false;
  fate = MailFate.sends;
}

abbrev broken_run : Run
broken_run = record good_run { fate = MailFate.fails }

abbrev to_lan : Confirmation
to_lan = record { event_id = 30; order_id = 10; user_id = 100; total_vnd = 1000 }

abbrev post : Post
post = record { db = shop_db; sent = [] }

send_run :
    (send_confirmation good_run to_lan post).1.sent
    ≡ record { to = 4000; order_id = 10; total_vnd = 1000 } ∷ []
unfolding send_confirmation
send_run = refl

send_confirmation_once_example :
    send_confirmation broken_run to_lan (send_confirmation good_run to_lan post).1
    ≡ (ok tt, (send_confirmation good_run to_lan post).1)
unfolding send_confirmation
send_confirmation_once_example = send_confirmation_once good_run broken_run to_lan post refl

send_confirmation_retries_example :
    send_confirmation broken_run to_lan post ≡ (err Error.mail_failed, post)
unfolding send_confirmation
send_confirmation_retries_example =
    send_confirmation_retries broken_run to_lan post Error.mail_failed refl refl refl
