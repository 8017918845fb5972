-- ===== src/Tests/Relaying.antt =====
-- The outbox of the shop.
use flash_core.Common.{◌≡◌, refl, false, none, [], ◌∷◌}
use flash_core.Store.{OutboxEvent, OutboxStatus, EventType, ok}
use flash_core.Outbox.{Relay, Round, relay_once, first_waiting}
use flash_core.Outbox.Delivery.{lost, relay_once-lost}
use flash_core.Outbox.Blocking.{Charges, relay_once_blocked}
use flash_core.Tests.Shop.{shop_db}

abbrev placed_by_lan : OutboxEvent
placed_by_lan = record {
  id = 30;
  event_type = EventType.order_placed;
  aggregate_id = 10;
  user_id = 100;
  total_vnd = 1000;
  status = OutboxStatus.waiting;
  attempts = 4;
  created_at = 6;
  dispatched_at = none;
}

abbrev unknown_event : OutboxEvent
unknown_event = record placed_by_lan {
  id = 29;
  event_type = EventType.other 7;
  attempts = 0;
  created_at = 5;
}

abbrev calm_round : Round
calm_round = record {
  now = 700;
  batch_size = 10;
  locked = λ i. false;
  refused = λ i. false;
  count_breaks = false;
}

abbrev one_waits : Relay
one_waits = record { db = record shop_db { outbox = placed_by_lan ∷ [] }; emails = [] }

abbrev blocked_line : Relay
blocked_line = record {
  db = record shop_db { outbox = placed_by_lan ∷ unknown_event ∷ [] };
  emails = [];
}

relay_run : (relay_once calm_round one_waits).0 ≡ ok 1
unfolding relay_once
relay_run = refl

relay_once-lost_example : lost (relay_once calm_round one_waits).1 ≡ 0
relay_once-lost_example = relay_once-lost calm_round one_waits refl

-- The order's event, behind one without a consumer, is failed without having been tried.
relay_once_blocked_example :
    ((relay_once calm_round blocked_line).0 ≡ ok 0)
    × Charges
        (29 ∷ 30 ∷ [])
        (placed_by_lan ∷ unknown_event ∷ [])
        (relay_once calm_round blocked_line).1.db.outbox
unfolding first_waiting
relay_once_blocked_example = relay_once_blocked calm_round blocked_line refl

blocked_run :
    (relay_once calm_round blocked_line).1.db.outbox
    ≡ record placed_by_lan { attempts = 5; status = OutboxStatus.failed }
      ∷ record unknown_event { attempts = 1 }
      ∷ []
unfolding relay_once
blocked_run = refl
