-- ===== src/Worker/Served.antt =====
-- What each job is for: the service that src/worker/job.processor.ts must call for it, and how that
-- call decides the outcome.
use flash_core.Common.{◌≡◌, refl, if◌then◌else◌}
use flash_core.Store.{Result, ok, err, Error, throw, catch}
use flash_core.Worker.{
  Job, Outcome, Services, Worker, is_permanent, send_email, route, process_job, Counts,
  process_job-Counts,
}

abbrev pub outcome_of : Result (Unit {0}) → Outcome
outcome_of (ok done) = Outcome.completed
outcome_of (err e) = Outcome.failed

module _ {S : Type 0} (services : Services S) where
  -- The outcome and the state that a call of a service leads to.
  abbrev pub Ends : Outcome → S → Result (Unit {0}) × S → Type 0
  Ends o s' (ok done, v) = (o ≡ Outcome.completed) × (s' ≡ v)
  Ends o s' (err e, v) = (o ≡ Outcome.failed) × (s' ≡ v)

  -- One service for each name; a name that nobody knows fails and changes nothing.
  abbrev pub Served : Job → S → Outcome → S → Type 0
  Served Job.outbox_relay s o s' = Ends o s' (services.relay_once s)
  Served Job.order_expire_sweep s o s' = Ends o s' (services.sweep_expired s)
  Served Job.data_retention s o s' = Ends o s' (services.sweep s)
  Served Job.sale_event_settle s o s' = Ends o s' (services.settle_ended_events s)
  Served (Job.email_confirm payload) s o s' = Ends o s' (services.send_confirmation payload s)
  Served (Job.order_expire order) s o s' = Ends o s' (services.cancel_expired order s)
  Served (Job.payment_process type input) s o s' = Ends o s' (services.process_payment type input s)
  Served (Job.other name) s o s' = (o ≡ Outcome.failed) × (s' ≡ s)

  -- Renaming the error of the sender does not change how the call ends.
  renamed_Ends :
      (o : Outcome) (s s' : S) (res : Result (Unit {0}) × S)
      → Ends o s' (
          catch {S = S}
            (λ _. res)
            (λ e. throw (if is_permanent e then Error.unrecoverable else e))
            s)
      → Ends o s' res
  renamed_Ends o s s' (ok done, v) ends = ends
  renamed_Ends o s s' (err e, v) ends = ends

  route-Served :
      (job : Job) (s : S) (o : Outcome) (s' : S)
      → Ends o s' (route services job s)
      → Served job s o s'
  unfolding route send_email
  route-Served Job.outbox_relay s o s' ends = ends
  route-Served Job.order_expire_sweep s o s' ends = ends
  route-Served Job.data_retention s o s' ends = ends
  route-Served Job.sale_event_settle s o s' ends = ends
  route-Served (Job.email_confirm payload) s o s' ends =
      renamed_Ends o s s' (services.send_confirmation payload s) ends
  route-Served (Job.order_expire order) s o s' ends = ends
  route-Served (Job.payment_process type input) s o s' ends = ends
  route-Served (Job.other name) s o s' ends = ends

  Counts-Ends :
      (job : Job) (w : Worker S) (res : Result (Unit {0}) × S) (run : Result (Unit {0}) × Worker S)
      → Counts services job w res run
      → Ends (outcome_of run.0) run.1.state res
  Counts-Ends job w (ok done, s) run counts = rw counts (refl, refl)
  Counts-Ends job w (err e, s) run counts = rw counts (refl, refl)

  -- The processor calls the job's service, once.
  pub process_job-Served :
      (job : Job) (w : Worker S)
      → Served job w.state
          (outcome_of (process_job services job w).0)
          (process_job services job w).1.state
  process_job-Served job w = route-Served job w.state _ _ (
      Counts-Ends job w (route services job w.state) (process_job services job w)
        (process_job-Counts services job w))
