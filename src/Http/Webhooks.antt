-- ===== src/Http/Webhooks.antt =====
-- `POST /payments/webhook`: what reaches the queue.
use flash_core.Common.{ℕ, ◌≡◌, refl, true, false, Option, none, some, List, [], ◌∷◌, ◌++◌, arith}
use flash_core.Payments.Signature.{Text, Signed, verify_signature}
use flash_core.Http.Filter.{catch_exception}
use flash_core.Http.Probes.{Answer}
use flash_core.Http.Routes.{PaymentJob, Queue, webhook_route}

-- 204 with the one job of a valid event, or an error and the queue as it was: 400 for a body that
-- is no event, 401 for a signature that is not accepted, 500 where the queue is down.
abbrev pub Takes :
    (Text → ℕ → Text → List ℕ)
    → Signed
    → Option PaymentJob
    → Queue
    → Answer (Unit {0}) × Queue
    → Type 0
Takes hmac input none q (Answer.success status a, q') = ⊥
Takes hmac input (some job) q (Answer.success status a, q') =
    (status ≡ 204)
    × (verify_signature hmac input ≡ none)
    × (q.up ≡ true)
    × (q' ≡ record q { jobs = q.jobs ++ (job ∷ []) })
Takes hmac input none q (Answer.failure caught, q') = (caught.answer.status ≡ 400) × (q' ≡ q)
Takes hmac input (some job) q (Answer.failure caught, q') =
    (q' ≡ q) × (elim (verify_signature hmac input) [
      | some failure ↦ caught.answer.status ≡ 401
      | none ↦ (caught.answer.status ≡ 500) × (q.up ≡ false)
    ])

-- The webhook answers 204 and adds the event's job exactly if the body is an event, the signature
-- is accepted and the queue takes the job; otherwise it answers 400, 401 or 500 and adds nothing.
pub webhook_route-Takes :
    (id : ℕ) (hmac : Text → ℕ → Text → List ℕ) (input : Signed) (body : Option PaymentJob)
    (q : Queue)
    → Takes hmac input body q (webhook_route id hmac input body q)
unfolding webhook_route catch_exception
webhook_route-Takes id hmac input none q = (refl, refl)
webhook_route-Takes id hmac input (some job) q = ground arith
