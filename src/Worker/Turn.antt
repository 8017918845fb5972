-- ===== src/Worker/Turn.antt =====
-- One turn of src/worker-once.ts: four periodic jobs, then the jobs of the queue until it is drained
-- or the time is up. `jobs` are the jobs that the queue hands out in the turn, in the order in which
-- they end.
use mathlib.Core.Path.{subst}
use mathlib.Core.List.{append-nil, append_assoc}
use flash_core.Common.{
  ℕ, ◌+◌, ◌≡◌, refl, ◌∙◌, sym, ap, Bool, true, false, List, [], ◌∷◌, ◌++◌, map, ltb, if◌then◌else◌,
  arith,
}
use flash_core.Common.Table.{count_where}
use flash_core.Store.{Action, Result, ok, err, pure, catch, ◌>>=◌, ◌>>◌}
use flash_core.Worker.{
  Job, Outcome, Services, Worker, route, process_job, Counts, process_job-Counts,
}
use flash_core.Worker.Served.{outcome_of, Served, process_job-Served}

pub record Tally : Type 0 where
  pub processed : ℕ
  pub failed : ℕ

-- The handlers of `completed` and `failed`.
abbrev pub tallied : Result (Unit {0}) → Tally → Tally
tallied (ok done) t = record t { processed = t.processed + 1 }
tallied (err e) t = record t { failed = t.failed + 1 }

abbrev pub exit_code : Tally → ℕ
exit_code t = if ltb 0 t.failed then 1 else 0

module _ {S : Type 0} (services : Services S) where
  unfoldable pub run_safely : Job → Action (Worker S) (Unit {0})
  unfolding process_job
  run_safely job = catch (process_job services job) (λ e. pure tt)

  unfoldable pub run_all : List Job → Action (Worker S) (Unit {0})
  unfolding run_safely
  run_all [] = pure tt
  run_all (job ∷ jobs) = run_safely job >> run_all jobs

  abbrev pub periodic : List Job
  periodic =
      Job.outbox_relay ∷ Job.order_expire_sweep ∷ Job.data_retention ∷ Job.sale_event_settle ∷ []

  unfoldable pub drain : List Job → Tally → Action (Worker S) Tally
  unfolding process_job
  drain [] t w = (ok t, w)
  drain (job ∷ jobs) t w = let (r, w') = process_job services job w in drain jobs (tallied r t) w'

  -- `bootstrap`, down to the code of `process.exit`.
  unfoldable pub run_turn : List Job → Action (Worker S) ℕ
  unfolding run_all drain
  run_turn jobs = do
    run_all periodic
    tally ← drain jobs (record { processed = 0; failed = 0 })
    pure (exit_code tally)

  abbrev Entry : Type 0
  Entry = Job × Outcome

  abbrev pub is_failed : Entry → Bool
  is_failed (job, Outcome.completed) = false
  is_failed (job, Outcome.failed) = true

  -- One job, counted at the end of the list.
  abbrev Adds : Job → Worker S → Result (Unit {0}) × Worker S → Type 0
  Adds job w (r, w') = w'.queue_jobs ≡ w.queue_jobs ++ ((job, outcome_of r) ∷ [])

  Counts-Adds :
      (job : Job) (w : Worker S) (res : Result (Unit {0}) × S) (run : Result (Unit {0}) × Worker S)
      → Counts services job w res run
      → Adds job w run
  Counts-Adds job w (ok done, s) run counts = rw counts refl
  Counts-Adds job w (err e, s) run counts = rw counts refl

  process_job-Adds : (job : Job) (w : Worker S) → Adds job w (process_job services job w)
  process_job-Adds job w =
      Counts-Adds job w (route services job w.state) (process_job services job w)
        (process_job-Counts services job w)

  -- The entries tell what happened: from state to state, each job's service was called and ended so.
  abbrev pub Happened : List Entry → S → S → Type 0
  Happened [] s s' = s' ≡ s
  Happened ((job, outcome) ∷ entries) s s' =
      (mid : S) × Served services job s outcome mid × Happened entries mid s'

  -- What a run does: each job is served, in order, and gets an entry.
  pub record Logs (jobs : List Job) (w w' : Worker S) : Type 0 where
    pub entries : List Entry
    pub names : map (λ (e : Entry). e.0) entries ≡ jobs
    pub logged : w'.queue_jobs ≡ w.queue_jobs ++ entries
    pub happened : Happened entries w.state w'.state

  one_logged :
      (job : Job) (w v w' : Worker S) (r : Result (Unit {0})) (entries : List Entry)
      → Adds job w (r, v)
      → w'.queue_jobs ≡ v.queue_jobs ++ entries
      → w'.queue_jobs ≡ w.queue_jobs ++ ((job, outcome_of r) ∷ entries)
  one_logged job w v w' r entries adds logged =
      logged
      ∙ ap (λ log. log ++ entries) adds
      ∙ append_assoc w.queue_jobs ((job, outcome_of r) ∷ []) entries

  Logs-one :
      (job : Job) (jobs : List Job) (w v w' : Worker S) (r : Result (Unit {0}))
      → Adds job w (r, v)
      → Served services job w.state (outcome_of r) v.state
      → Logs jobs v w'
      → Logs (job ∷ jobs) w w'
  Logs-one job jobs w v w' r adds served logs = record {
    entries = (job, outcome_of r) ∷ logs.entries;
    names = ap (λ names. job ∷ names) logs.names;
    logged = one_logged job w v w' r logs.entries adds logs.logged;
    happened = (v.state, served, logs.happened);
  }

  caught_lem :
      (w : Worker S) (res : Result (Unit {0}) × Worker S)
      → catch {S = Worker S} (λ s. res) (λ e. pure tt) w ≡ (ok tt, res.1)
  caught_lem w (ok tt, v) = refl
  caught_lem w (err e, v) = refl

  run_safely_lem :
      (job : Job) (w : Worker S) → run_safely job w ≡ (ok tt, (process_job services job w).1)
  unfolding run_safely
  run_safely_lem job w = caught_lem w (process_job services job w)

  abbrev Runs : List Job → Worker S → Type 0
  Runs jobs w = ((run_all jobs w).0 ≡ ok tt) × Logs jobs w (run_all jobs w).1

  run_all-Logs : (jobs : List Job) (w : Worker S) → Runs jobs w
  unfolding run_all
  run_all-Logs [] w = (
    refl,
    record { entries = []; names = refl; logged = sym (append-nil w.queue_jobs); happened = refl },
  )
  run_all-Logs (job ∷ jobs) w =
      let v = (process_job services job w).1 in
      let rest = run_all-Logs jobs v in
      subst
        (λ (res : Result (Unit {0}) × Worker S).
          ((◌>>◌ {S = Worker S} (λ s. res) (run_all jobs) w).0 ≡ ok tt)
          × Logs (job ∷ jobs) w (◌>>◌ {S = Worker S} (λ s. res) (run_all jobs) w).1)
        (sym (run_safely_lem job w))
        (
          rest.0,
          Logs-one job jobs w v (run_all jobs v).1 (process_job services job w).0
              (process_job-Adds job w) (process_job-Served services job w) rest.1,
        )

  -- The jobs that the queue hands out, with the tally of their outcomes.
  record Drains (jobs : List Job) (t : Tally) (w : Worker S) (res : Result Tally × Worker S)
      : Type 0 where
    logs : Logs jobs w res.1
    tally : Tally
    ends : res.0 ≡ ok tally
    failures : tally.failed ≡ t.failed + count_where is_failed logs.entries

  tallied_failed :
      (job : Job) (r : Result (Unit {0})) (t : Tally) (entries : List Entry)
      → (tallied r t).failed + count_where is_failed entries
        ≡ t.failed + count_where is_failed ((job, outcome_of r) ∷ entries)
  tallied_failed job (ok done) t entries = refl
  tallied_failed job (err e) t entries = omega arith

  drain-Drains : (jobs : List Job) (t : Tally) (w : Worker S) → Drains jobs t w (drain jobs t w)
  unfolding drain
  drain-Drains [] t w = record {
    logs = record {
      entries = [];
      names = refl;
      logged = sym (append-nil w.queue_jobs);
      happened = refl;
    };
    tally = t;
    ends = refl;
    failures = omega arith;
  }
  drain-Drains (job ∷ jobs) t w =
      let r = (process_job services job w).0 in
      let v = (process_job services job w).1 in
      let rest = drain-Drains jobs (tallied r t) v in
      record {
        logs = record {
          entries = (job, outcome_of r) ∷ rest.logs.entries;
          names = ap (λ names. job ∷ names) rest.logs.names;
          logged =
              one_logged job w v (drain jobs (tallied r t) v).1 r rest.logs.entries
                (process_job-Adds job w) rest.logs.logged;
          happened = (v.state, process_job-Served services job w, rest.logs.happened);
        };
        tally = rest.tally;
        ends = rest.ends;
        failures = rest.failures ∙ tallied_failed job r t rest.logs.entries;
      }

  -- How a turn ends: what the periodic jobs did, then what the jobs of the queue did, which alone
  -- decide the exit code.
  pub record Turns (jobs : List Job) (w : Worker S) (res : Result ℕ × Worker S) : Type 0 where
    pub before : Worker S
    pub opening : Logs periodic w before
    pub drained : Logs jobs before res.1
    pub code : res.0 ≡ ok (if ltb 0 (count_where is_failed drained.entries) then 1 else 0)

  abbrev no_tally : Tally
  no_tally = record { processed = 0; failed = 0 }

  drained_Turns :
      (jobs : List Job) (w v : Worker S) (res : Result Tally × Worker S)
      → Logs periodic w v
      → Drains jobs no_tally v res
      → Turns jobs w (◌>>=◌ {S = Worker S} (λ s. res) (λ tally. pure (exit_code tally)) v)
  drained_Turns jobs w v (ok t, u) opening drains = record {
    before = v;
    opening = opening;
    drained = drains.logs;
    code = ground (arith, drains.ends, drains.failures);
  }
  drained_Turns jobs w v (err e, u) opening drains = absurd (cc (drains.ends))

  opened_Turns :
      (jobs : List Job) (w : Worker S) (res : Result (Unit {0}) × Worker S)
      → res.0 ≡ ok tt
      → Logs periodic w res.1
      → Turns jobs w (
          ◌>>◌ {S = Worker S}
            (λ s. res)
            (◌>>=◌ (drain jobs no_tally) (λ tally. pure (exit_code tally)))
            w)
  opened_Turns jobs w (ok done, v) fine opening =
      drained_Turns jobs w v (drain jobs no_tally v) opening (drain-Drains jobs no_tally v)
  opened_Turns jobs w (err e, v) fine opening = absurd (cc)

  pub run_turn-Turns : (jobs : List Job) (w : Worker S) → Turns jobs w (run_turn jobs w)
  unfolding run_turn
  run_turn-Turns jobs w =
      let opened = run_all-Logs periodic w in
      opened_Turns jobs w (run_all periodic w) opened.0 opened.1
