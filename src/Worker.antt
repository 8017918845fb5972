-- ===== src/Worker.antt =====
-- JobProcessor (src/worker/job.processor.ts): a job goes to the service that its name says. The
-- services are a record over their common state; what they do is modelled in the other modules.
pub mod Served
pub mod Turn
use flash_core.Common.{
  ℕ, ◌≡◌, refl, ap, ◌∙◌, Bool, true, false, List, [], ◌∷◌, ◌++◌, if◌then◌else◌, arith,
}
use flash_core.Store.{Action, Result, ok, err, Error, throw, modify, catch, ◌>>◌}
use flash_core.Notifications.{Confirmation}
use flash_core.Payments.{SettlePayment}
use flash_core.Payments.Process.{PaymentType}

-- A job by its name, with its payload.
pub data Job : Type 0 where
  outbox_relay order_expire_sweep data_retention sale_event_settle : Job
  email_confirm : Confirmation → Job
  order_expire : ℕ → Job
  payment_process : PaymentType → SettlePayment → Job
  other : ℕ → Job

pub data Outcome : Type 0 where
  completed failed : Outcome

pub record Services (S : Type 0) : Type 0 where
  pub relay_once : Action S (Unit {0})
  pub send_confirmation : Confirmation → Action S (Unit {0})
  pub cancel_expired : ℕ → Action S (Unit {0})
  pub sweep_expired : Action S (Unit {0})
  pub sweep : Action S (Unit {0})
  pub settle_ended_events : Action S (Unit {0})
  pub process_payment : PaymentType → SettlePayment → Action S (Unit {0})

-- The state with the metric `queue_jobs`, its newest entry last.
pub record Worker (S : Type 0) : Type 0 where
  pub state : S
  pub queue_jobs : List (Job × Outcome)

abbrev pub is_permanent : Error → Bool
is_permanent Error.permanent_mail_error = true
is_permanent _ = false

-- BullMQ tries a job again unless its error is `UnrecoverableError`.
abbrev pub stops_retries : {A : Type 0} → Result A → Bool
stops_retries (err Error.unrecoverable) = true
stops_retries _ = false

module _ {S : Type 0} (services : Services S) where
  unfoldable pub send_email : Confirmation → Action S (Unit {0})
  send_email payload =
      catch (services.send_confirmation payload)
        (λ e. throw (if is_permanent e then Error.unrecoverable else e))

  unfoldable pub route : Job → Action S (Unit {0})
  unfolding send_email
  route Job.outbox_relay = services.relay_once
  route (Job.email_confirm payload) = send_email payload
  route (Job.order_expire order) = services.cancel_expired order
  route Job.order_expire_sweep = services.sweep_expired
  route Job.data_retention = services.sweep
  route Job.sale_event_settle = services.settle_ended_events
  route (Job.payment_process type input) = services.process_payment type input
  route (Job.other name) = throw Error.unrecoverable

  abbrev pub counted : Job → Outcome → Worker S → Worker S
  counted job outcome w = record w { queue_jobs = w.queue_jobs ++ ((job, outcome) ∷ []) }

  abbrev pub in_state : {A : Type 0} → Action S A → Action (Worker S) A
  in_state m w = let (r, s) = m w.state in (r, record w { state = s })

  -- The count comes before the error is thrown on.
  unfoldable pub process_job : Job → Action (Worker S) (Unit {0})
  unfolding route
  process_job job =
      catch (in_state (route job) >> modify (counted job Outcome.completed))
        (λ e. modify (counted job Outcome.failed) >> throw e)

  -- The processor round an answer of the route.
  abbrev around : Job → Result (Unit {0}) × S → Action (Worker S) (Unit {0})
  around job res =
      catch (in_state (λ s. res) >> modify (counted job Outcome.completed))
        (λ e. modify (counted job Outcome.failed) >> throw e)

  -- A job is counted once, under the outcome that the queue sees, and its error is passed on.
  abbrev pub Counts : Job → Worker S → Result (Unit {0}) × S → Result (Unit {0}) × Worker S → Type 0
  Counts job w (ok a, s) run = run ≡ (ok tt, counted job Outcome.completed (record w { state = s }))
  Counts job w (err e, s) run = run ≡ (err e, counted job Outcome.failed (record w { state = s }))

  around-Counts :
      (job : Job) (w : Worker S) (res : Result (Unit {0}) × S) → Counts job w res (around job res w)
  around-Counts job w (ok tt, s) = refl
  around-Counts job w (err e, s) = refl

  same_answer :
      (job : Job) (w : Worker S) (res : Result (Unit {0}) × S) → (around job res w).0 ≡ res.0
  same_answer job w (ok tt, s) = refl
  same_answer job w (err e, s) = refl

  -- Whatever the services answer, a job is counted once, as completed if its service ends and as failed
  -- if it throws; the state is what the service leaves, and its error is passed on.
  pub process_job-Counts :
      (job : Job) (w : Worker S) → Counts job w (route job w.state) (process_job job w)
  unfolding process_job
  process_job-Counts job w = around-Counts job w (route job w.state)

-- An answer of the sender that makes another try useless.
abbrev pub is_final : Result (Unit {0}) → Bool
is_final (err Error.permanent_mail_error) = true
is_final (err Error.unrecoverable) = true
is_final _ = false

final_error :
    (e : Error)
    → stops_retries {A = Unit {0}} (err (if is_permanent e then Error.unrecoverable else e))
      ≡ is_final (err e)
final_error e = ground arith

after_email :
    {S : Type 0} (res : Result (Unit {0}) × S)
    → stops_retries
        (catch {S = S}
          (λ s. res)
          (λ e. throw (if is_permanent e then Error.unrecoverable else e))
          res.1).0
      ≡ is_final res.0
after_email (ok tt, s) = refl
after_email (err e, s) = final_error e

-- The job of a confirmation ends in the error that keeps the queue from trying again exactly if
-- the sender throws a permanent mail error, or that error itself.
pub process_job-is_final :
    {S : Type 0} (services : Services S) (payload : Confirmation) (w : Worker S)
    → stops_retries (process_job services (Job.email_confirm payload) w).0
      ≡ is_final (services.send_confirmation payload w.state).0
unfolding process_job send_email
process_job-is_final services payload w =
    ap stops_retries
      (same_answer services (Job.email_confirm payload) w (send_email services payload w.state))
    ∙ after_email (services.send_confirmation payload w.state)
