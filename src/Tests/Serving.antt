-- ===== src/Tests/Serving.antt =====
-- Requests at the HTTP edge of the shop.
use mathlib.Core.Path.{subst}
use flash_core.Common.{
  sym, ℕ, ◌+◌, ◌≤◌, ◌≡◌, ◌↔◌, refl, true, false, none, some, [], ◌∷◌, map, arith,
}
use flash_core.Common.Table.{count_where}
use flash_core.Store.{World, Order}
use flash_core.Inventory.{IsKeyed, has_id, take_units}
use flash_core.Inventory.Pessimistic.{pessimistic}
use flash_core.Inventory.Contract.{pessimistic-IsSound}
use flash_core.Orders.{Stamp, Setting, CreateOrderDto, new_order}
use flash_core.Orders.Placing.{direct_input}
use flash_core.Auth.{TokenPair}
use flash_core.Payments.Process.{PaymentType}
use flash_core.Payments.Signature.{Text, Signed}
use flash_core.Http.Errors.{DomainError, OrderError, Level}
use flash_core.Http.Filter.{Exception, internal_answer, catch_exception}
use flash_core.Http.Answers.{is_quiet, catch_exception-internal, catch_exception_logged}
use flash_core.Http.Probes.{
  Probe, Answer, Signal, ready_route, Reports, serve, AllUnready, status_of, ready_route-Reports,
  serve-AllUnready,
}
use flash_core.Http.Routes.{PaymentJob, Queue, place_route, webhook_route}
use flash_core.Http.Placing.{Repeats, place_route-again}
use flash_core.Http.Webhooks.{Takes, webhook_route-Takes}
use flash_core.Http.Sessions.{CookieEnv, Granted, set_auth_cookies, refresh_route, logout_route}
use flash_core.Http.Leaving.{refresh_route-logout_route}
use flash_core.Tests.Shop.{shop, shirt, cap_sku}
use flash_core.Tests.Entering.{toy, limits, accounts, first_draw, second_draw}

-- A failing statement, whatever it carries, is the constant answer.
catch_exception-internal_example :
    (catch_exception 5 (Exception.object false true 77)).answer ≡ internal_answer
unfolding catch_exception
catch_exception-internal_example =
    catch_exception-internal 5 (Exception.object false true 77) refl (omega arith)

catch_exception_logged_example :
    let sold_out = Exception.domain (DomainError.order OrderError.out_of_stock) in
    ((catch_exception 5 sold_out).logged ≡ Level.error)
    ↔ ((500 ≤ (catch_exception 5 sold_out).answer.status) × (is_quiet sold_out ≡ false))
catch_exception_logged_example =
    catch_exception_logged 5 (Exception.domain (DomainError.order OrderError.out_of_stock))

abbrev half_up : Probe
half_up = record { database = true; redis = false }

abbrev all_up : Probe
all_up = record { database = true; redis = true }

ready_route-Reports_example :
    Reports half_up
      (record { shutting_down = false })
      (ready_route 1 half_up (record { shutting_down = false }))
ready_route-Reports_example = ready_route-Reports 1 half_up (record { shutting_down = false })

serve-AllUnready_example :
    AllUnready
      (serve
        (Signal.probed all_up ∷ Signal.terminated ∷ Signal.probed half_up ∷ [])
        (record { shutting_down = true })).0
serve-AllUnready_example =
    serve-AllUnready (Signal.probed all_up ∷ Signal.terminated ∷ Signal.probed half_up ∷ [])
      (record { shutting_down = true }) refl

abbrev key_of : Text → ℕ
key_of [] = 0
key_of (c ∷ s) = c

abbrev clock : Setting
clock = record {
  hold_minutes = 15;
  node_now = 1000;
  reserved_at = 1000;
  diagnosed_at = 1000;
  queue_up = true;
}

abbrev stamp_at : ℕ → Stamp
stamp_at n = record { order_id = n; outbox_id = n + 20; created_at = 1000 }

abbrev one_shirt : CreateOrderDto
one_shirt = record { sku_id = some 1; sale_event_sku_id = none; quantity = 1 }

abbrev served : World
served =
    (place_route 1 key_of (stamp_at 12) clock pessimistic 102 (some (b'k' ∷ [])) (some one_shirt)
      shop).1

abbrev made : Order
made = new_order (stamp_at 12) (direct_input (stamp_at 12) clock 102 (b'k') 1 1 500)

skus_run : served.db.skus ≡ take_units 1 shirt ∷ cap_sku ∷ []
unfolding place_route pessimistic flash_core.Orders.create_order
skus_run = refl

served-IsKeyed : IsKeyed served.db
served-IsKeyed k = subst (λ skus. count_where (has_id k) skus ≤ 1) (sym skus_run) (ground arith)

first_run :
    place_route 1 key_of
      (stamp_at 12)
      clock
      pessimistic
      102
      (some (b'k' ∷ []))
      (some one_shirt)
      shop
    ≡ (Answer.success 201 made, served)
unfolding place_route pessimistic flash_core.Orders.create_order
first_run = refl

place_route-again_example : Repeats made (
    place_route 2 key_of
      (stamp_at 13)
      clock
      pessimistic
      102
      (some (b'k' ∷ []))
      (some one_shirt)
      served)
place_route-again_example =
    place_route-again key_of 102 1 2 (stamp_at 12) (stamp_at 13) clock clock pessimistic pessimistic
      (b'k' ∷ []) (some one_shirt) (some one_shirt) shop served made first_run pessimistic-IsSound
      served-IsKeyed

abbrev forged : Signed
forged = record {
  header = some (b't' ∷ []);
  raw_body = [];
  secret = [];
  tolerance_sec = 300;
  now_sec = 200;
}

abbrev paid_job : PaymentJob
paid_job = record {
  type = PaymentType.succeeded;
  input = record { event_id = 1; order_id = 10; payment_intent_id = 5; amount_vnd = 1000 };
}

abbrev empty_queue : Queue
empty_queue = record { jobs = []; up = true }

webhook_route-Takes_example :
    Takes
      (λ secret t body. t ∷ [])
      forged
      (some paid_job)
      empty_queue
      (webhook_route 1 (λ secret t body. t ∷ []) forged (some paid_job) empty_queue)
webhook_route-Takes_example =
    webhook_route-Takes 1 (λ secret t body. t ∷ []) forged (some paid_job) empty_queue

abbrev cookie_env : CookieEnv
cookie_env = record { cookie_secure = true; access_token_ttl = 900; refresh_token_ttl = 600 }

abbrev pair : TokenPair
pair = record { access_token = 3; refresh_token = 900 }

refresh_route-logout_route_example :
    let (left, s) = logout_route 1 toy limits cookie_env first_draw (some 900) accounts in
    let again = (refresh_route 1 toy limits cookie_env second_draw (some 900) s).0 in
    (status_of left.answer ≡ 204)
    × (left.cleared ≡ map (λ (g : Granted). g.cookie) (set_auth_cookies cookie_env pair))
    × (status_of again.answer ≡ 401)
    × (again.granted ≡ [])
refresh_route-logout_route_example =
    refresh_route-logout_route 1 toy limits cookie_env first_draw second_draw 900 pair accounts
