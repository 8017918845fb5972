-- ===== src/Http/Placing.antt =====
-- `POST /orders` sent twice with one `Idempotency-Key`.
use flash_core.Common.{ℕ, ◌≡◌, Option, none, some, [], ◌∷◌, arith}
use flash_core.Common.Table.{find}
use flash_core.Store.{World, Order, Result, ok, err}
use flash_core.Inventory.{Reserver, IsSound, IsKeyed}
use flash_core.Orders.{Stamp, Setting, Placement, CreateOrderDto, has_key, place_order}
use flash_core.Payments.Signature.{Text, trim}
use flash_core.Http.Filter.{catch_exception}
use flash_core.Http.Probes.{Answer}
use flash_core.Http.Routes.{exception_of, placed_status, place_trimmed, place_route}
use flash_core.Http.Repeating.{IsFound, place_order-IsFound}
use flash_core.Http.Reused.{IsOld, place_order-IsOld}

-- The old order with status 200, or an error.
abbrev pub Repeats : Order → Answer Order × World → Type 0
Repeats o (Answer.success status body, w') = (status ≡ 200) × (body ≡ o)
Repeats o (Answer.failure caught, w') = Unit

module _ (id : ℕ) where
  abbrev to_answer : Result Placement × World → Answer Order × World
  to_answer res = elim res.0 [
    | ok p ↦ (Answer.success (placed_status p) p.order, res.1)
    | err e ↦ (Answer.failure (catch_exception id (exception_of e)), res.1)
  ]

  to_answer-IsFound :
      (user key : ℕ) (res : Result Placement × World) (o : Order) (w' : World)
      → IsFound user key res
      → to_answer res ≡ (Answer.success 201 o, w')
      → find (has_key user key) w'.db.orders ≡ some o
  to_answer-IsFound user key (ok p, v) o w' found e = ground arith
  to_answer-IsFound user key (err x, v) o w' found e = absurd (cc)

  to_answer-Repeats :
      (user key : ℕ) (res : Result Placement × World) (o : Order)
      → IsOld user key o res
      → Repeats o (to_answer res)
  to_answer-Repeats user key (ok p, v) o old = ground arith
  to_answer-Repeats user key (err x, v) o old = tt

module _ (key_of : Text → ℕ) (user : ℕ) where
  module _ (id : ℕ) (stamp : Stamp) (setting : Setting) (reserver : Reserver) where
    trimmed-IsFound :
        (dto : CreateOrderDto) (key : Text) (w w' : World) (o : Order)
        → place_trimmed id key_of stamp setting reserver user dto key w ≡ (Answer.success 201 o, w')
        → find (has_key user (key_of key)) w'.db.orders ≡ some o
    unfolding place_trimmed
    trimmed-IsFound dto [] w w' o e = absurd (cc)
    trimmed-IsFound dto (c ∷ key) w w' o e =
        to_answer-IsFound id user (key_of (c ∷ key))
          (place_order stamp setting reserver user (key_of (c ∷ key)) dto w) o w'
          (place_order-IsFound stamp setting reserver user (key_of (c ∷ key)) dto w) e

    route-IsFound :
        (key : Text) (dto : Option CreateOrderDto) (w w' : World) (o : Order)
        → place_route id key_of stamp setting reserver user (some key) dto w
          ≡ (Answer.success 201 o, w')
        → find (has_key user (key_of (trim key))) w'.db.orders ≡ some o
    unfolding place_route
    route-IsFound key none w w' o e = absurd (cc)
    route-IsFound key (some dto) w w' o e = trimmed-IsFound dto (trim key) w w' o e

    trimmed-Repeats :
        (dto : CreateOrderDto) (key : Text) (w : World) (o : Order)
        → IsSound reserver
        → IsKeyed w.db
        → find (has_key user (key_of key)) w.db.orders ≡ some o
        → Repeats o (place_trimmed id key_of stamp setting reserver user dto key w)
    unfolding place_trimmed
    trimmed-Repeats dto [] w o sound keyed used = tt
    trimmed-Repeats dto (c ∷ key) w o sound keyed used =
        to_answer-Repeats id user (key_of (c ∷ key))
          (place_order stamp setting reserver user (key_of (c ∷ key)) dto w) o
          (place_order-IsOld user (key_of (c ∷ key)) o stamp setting reserver sound dto w keyed
            used)

    route-Repeats :
        (key : Text) (dto : Option CreateOrderDto) (w : World) (o : Order)
        → IsSound reserver
        → IsKeyed w.db
        → find (has_key user (key_of (trim key))) w.db.orders ≡ some o
        → Repeats o (place_route id key_of stamp setting reserver user (some key) dto w)
    unfolding place_route
    route-Repeats key none w o sound keyed used = tt
    route-Repeats key (some dto) w o sound keyed used =
        trimmed-Repeats dto (trim key) w o sound keyed used

  -- If `POST /orders` has answered 201 with an order, then the same user's next request with the
  -- same key, whatever its body, is answered 200 with that order or with an error, never with
  -- another order: for strategies that keep the contract, the UPDATE of whose releases
  -- runs, and while SKU ids are unique.
  pub place_route-again :
      (id id' : ℕ) (stamp stamp' : Stamp) (setting setting' : Setting) (first reserver : Reserver)
      (key : Text) (dto dto' : Option CreateOrderDto) (w w' : World) (o : Order)
      → place_route id key_of stamp setting first user (some key) dto w ≡ (Answer.success 201 o, w')
      → IsSound reserver
      → IsKeyed w'.db
      → Repeats o (place_route id' key_of stamp' setting' reserver user (some key) dto' w')
  place_route-again id id' stamp stamp' setting setting' first reserver key dto dto' w w' o made
        sound keyed =
      route-Repeats id' stamp' setting' reserver key dto' w' o sound keyed
        (route-IsFound id stamp setting first key dto w w' o made)
