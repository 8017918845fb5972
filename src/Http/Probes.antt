-- ===== src/Http/Probes.antt =====
-- HealthService (src/modules/health/health.service.ts) and its controller. What PostgreSQL and Redis
-- answer to a probe is an argument; the uptime is left out.
use flash_core.Common.{
  ℕ, ◌≡◌, refl, ap, ◌∙◌, Bool, true, false, List, [], ◌∷◌, ◌&&◌, not, if◌then◌else◌, arith,
}
use flash_core.Store.{Action, ok, err, pure, gets, modify, ◌>>=◌}
use flash_core.Http.Errors.{Checks, DomainError, Level}
use flash_core.Http.Filter.{Exception, Caught, catch_exception}

-- Whether `SELECT 1` and `PING` are answered.
pub record Probe : Type 0 where
  pub database : Bool
  pub redis : Bool

pub record Health : Type 0 where
  pub shutting_down : Bool

unfoldable pub begin_shutdown : Action Health (Unit {0})
begin_shutdown = modify λ h. record h { shutting_down = true }

pub record ReadinessReport : Type 0 where
  pub ready : Bool
  pub checks : Checks

unfoldable pub readiness : Probe → Action Health ReadinessReport
readiness probe = do
  shutting_down ← gets λ h. h.shutting_down
  pure (record {
    ready = probe.database && (probe.redis && not shutting_down);
    checks = record {
      database_up = probe.database;
      redis_up = probe.redis;
      shutting_down = shutting_down;
    };
  })

-- An answer: a status with a body, or what the exception filter made of a throw.
pub data Answer (A : Type 0) : Type 0 where
  success : ℕ → A → Answer A
  failure : Caught → Answer A

abbrev pub status_of : {A : Type 0} → Answer A → ℕ
status_of (Answer.success status body) = status
status_of (Answer.failure caught) = caught.answer.status

-- `GET /ready`.
unfoldable pub answer_report : ℕ → ReadinessReport → Answer ReadinessReport
unfolding catch_exception
answer_report id report =
    if report.ready
    then Answer.success 200 report
    else Answer.failure
        (catch_exception id (Exception.domain (DomainError.not_ready report.checks)))

unfoldable pub ready_route : ℕ → Probe → Health → Answer ReadinessReport × Health
unfolding readiness answer_report
ready_route id probe h = elim (readiness probe h).0 [
  | ok report ↦ (answer_report id report, (readiness probe h).1)
  | err e ↦ (Answer.failure (catch_exception id (Exception.primitive 0)), (readiness probe h).1)
]

-- What reaches one instance: a probe, or SIGTERM.
pub data Signal : Type 0 where
  probed : Probe → Signal
  terminated : Signal

-- The statuses of the probes, in their order.
unfoldable pub serve : List Signal → Health → List ℕ × Health
unfolding begin_shutdown ready_route
serve [] h = ([], h)
serve (Signal.terminated ∷ signals) h = serve signals (begin_shutdown h).1
serve (Signal.probed probe ∷ signals) h =
    let (answer, h') = ready_route 0 probe h in
    let (statuses, h'') = serve signals h' in (status_of answer ∷ statuses, h'')

abbrev pub AllUnready : List ℕ → Type 0
AllUnready [] = Unit
AllUnready (status ∷ statuses) = (status ≡ 503) × AllUnready statuses

-- Ready with both stores up and no shutdown begun, or not ready with a warning in the log.
abbrev pub Reports : Probe → Health → Answer ReadinessReport × Health → Type 0
Reports probe h (Answer.success status report, h') =
    (status ≡ 200) × (h' ≡ h) × ((probe.database && (probe.redis && not h.shutting_down)) ≡ true)
Reports probe h (Answer.failure caught, h') =
    (caught.answer.status ≡ 503)
    × (caught.logged ≡ Level.warn)
    × (h' ≡ h)
    × ((probe.database && (probe.redis && not h.shutting_down)) ≡ false)

-- `GET /ready` answers 200 if both stores answer and no SIGTERM came, and else 503, logged as a
-- warning; it changes nothing.
pub ready_route-Reports :
    (id : ℕ) (probe : Probe) (h : Health) → Reports probe h (ready_route id probe h)
unfolding ready_route
ready_route-Reports id probe h = ground arith

unready :
    (probe : Probe) (h : Health)
    → h.shutting_down ≡ true
    → (status_of (ready_route 0 probe h).0 ≡ 503) × ((ready_route 0 probe h).1 ≡ h)
unfolding ready_route
unready probe h down = ground arith

-- Once SIGTERM came, every later probe is answered 503, whatever the stores answer and whatever
-- else comes.
pub serve-AllUnready :
    (signals : List Signal) (h : Health) → h.shutting_down ≡ true → AllUnready (serve signals h).0
unfolding serve begin_shutdown
serve-AllUnready [] h down = tt
serve-AllUnready (Signal.terminated ∷ signals) h down =
    serve-AllUnready signals (begin_shutdown h).1 refl
serve-AllUnready (Signal.probed probe ∷ signals) h down = (
  (unready probe h down).0,
  serve-AllUnready signals (ready_route 0 probe h).1
      (ap (λ (x : Health). x.shutting_down) (unready probe h down).1 ∙ down),
)
