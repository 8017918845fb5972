-- ===== src/Tests/Working.antt =====
-- Jobs at the processor.
use flash_core.Common.{ℕ, suc, ◌≡◌, refl, true, [], ◌∷◌}
use flash_core.Store.{Action, ok, err, Error, throw, modify}
use flash_core.Notifications.{Confirmation}
use flash_core.Payments.{SettlePayment}
use flash_core.Payments.Process.{PaymentType}
use flash_core.Worker.Turn.{run_turn, Turns, run_turn-Turns}
use flash_core.Worker.{
  Job, Outcome, Services, Worker, stops_retries, process_job, process_job-is_final,
}

-- The state counts the calls; no mail can be sent.
abbrev count : Action ℕ (Unit {0})
count = modify suc

abbrev services : Services ℕ
services = record {
  relay_once = count;
  send_confirmation = λ payload. throw Error.permanent_mail_error;
  cancel_expired = λ order. count;
  sweep_expired = count;
  sweep = count;
  settle_ended_events = count;
  process_payment = λ type input. throw Error.query_failed;
}

abbrev idle : Worker ℕ
idle = record { state = 0; queue_jobs = [] }

abbrev incoming : SettlePayment
incoming = record { event_id = 1; order_id = 10; payment_intent_id = 5; amount_vnd = 1000 }

abbrev payload : Confirmation
payload = record { event_id = 1; order_id = 2; user_id = 3; total_vnd = 4 }

sweep_job_run :
    process_job services Job.data_retention idle
    ≡ (ok tt, record { state = 1; queue_jobs = (Job.data_retention, Outcome.completed) ∷ [] })
unfolding process_job
sweep_job_run = refl

unknown_job_run : (process_job services (Job.other 9) idle).0 ≡ err Error.unrecoverable
unfolding process_job
unknown_job_run = refl

process_job-is_final_example :
    stops_retries (process_job services (Job.email_confirm payload) idle).0 ≡ true
process_job-is_final_example = process_job-is_final services payload idle

-- The relay fails in this turn, and nothing is in the queue.
abbrev broken_relay : Services ℕ
broken_relay = record services { relay_once = throw Error.query_failed }

green_run : (run_turn broken_relay [] idle).0 ≡ ok 0
unfolding run_turn
green_run = refl

run_turn-Turns_example :
    Turns services
      (Job.payment_process PaymentType.succeeded incoming ∷ Job.order_expire 10 ∷ [])
      idle
      (run_turn services
        (Job.payment_process PaymentType.succeeded incoming ∷ Job.order_expire 10 ∷ [])
        idle)
run_turn-Turns_example =
    run_turn-Turns services
      (Job.payment_process PaymentType.succeeded incoming ∷ Job.order_expire 10 ∷ []) idle
