-- ===== src/Server/Calls.antt =====
-- internal/server/worker.go: `SubmitAndWait`, which sends jobs and collects as many results, beside the
-- workers of its pool. No other caller uses the pool meanwhile.
use geo_spatial_dispatch_ser.Prelude.{
  ℕ, suc, not, ◌&&◌, Bool, List, [], ◌∷◌, ◌++◌, ltb, if◌then◌else◌,
}
use geo_spatial_dispatch_ser.Realtime.Clients.{length}
use geo_spatial_dispatch_ser.Server.Workers.{
  Job, JobResult, Worker, idle, sending, WorkerPool, taking, finishing, putting, leaving, worker_at,
  submit, hand_job, give_result, receive_result, step_pool,
}

-- The jobs that the loop has not sent, and how many results the collector still waits for.
pub record Call (P O : Type 0) : Type 0 where
  pub pool : WorkerPool P O
  pub unsent : List (Job P)
  pub wanted : ℕ
  pub collected : List (JobResult O)

-- A case of a select, or a receive. The number is that of a worker.
pub data CallEvent : Type 0 where
  sending_next skipping_next collecting : CallEvent
  handing_next collecting_from taking_job finishing_job putting_result leaving_pool : ℕ → CallEvent

module _ {P O : Type 0} where
  unfoldable pub calling : List (Job P) → WorkerPool P O → Call P O
  calling jobs wp = record { pool = wp; unsent = jobs; wanted = length jobs; collected = [] }

  abbrev pub has_room : WorkerPool P O → Bool
  has_room wp = not wp.jobs_closed && ltb (length wp.jobs) wp.buffer_size

  -- `Submit` of the next job, into the buffer.
  abbrev pub send_next : List (Job P) → Call P O → Call P O
  send_next [] c = c
  send_next (job ∷ rest) c =
      if has_room c.pool then record c { pool = submit job c.pool; unsent = rest } else c

  -- `Submit` of the next job, to a worker that waits.
  abbrev pub hand_next : ℕ → List (Job P) → Worker P O → List (Job P) → Call P O → Call P O
  hand_next i (job ∷ rest) idle [] c =
      if not c.pool.jobs_closed
      then record c { pool = hand_job i job idle [] c.pool; unsent = rest }
      else c
  hand_next i unsent w jobs c = c

  -- `Submit` of the next job, where it returns false: that is ignored.
  abbrev pub skip_next : List (Job P) → Call P O → Call P O
  skip_next [] c = c
  skip_next (job ∷ rest) c = if c.pool.cancelled then record c { unsent = rest } else c

  -- A receive of the collector, which ends after as many as there are jobs.
  abbrev pub collect : ℕ → List (JobResult O) → Call P O → Call P O
  collect (suc n) (result ∷ rest) c = record c {
    pool = receive_result (result ∷ rest) c.pool;
    wanted = n;
    collected = c.collected ++ (result ∷ []);
  }
  collect n results c = c

  abbrev pub collect_from : ℕ → ℕ → Worker P O → List (JobResult O) → Call P O → Call P O
  collect_from i (suc n) (sending result) [] c = record c {
    pool = give_result i (sending result) [] c.pool;
    wanted = n;
    collected = c.collected ++ (result ∷ []);
  }
  collect_from i n w results c = c

  module _ (processor : Job P → JobResult O) where
    unfoldable pub step_call : CallEvent → Call P O → Call P O
    step_call sending_next c = send_next c.unsent c
    step_call skipping_next c = skip_next c.unsent c
    step_call (handing_next i) c = hand_next i c.unsent (worker_at i c.pool.workers) c.pool.jobs c
    step_call collecting c = collect c.wanted c.pool.results c
    step_call (collecting_from i) c =
        collect_from i c.wanted (worker_at i c.pool.workers) c.pool.results c
    step_call (taking_job i) c = record c { pool = step_pool processor (taking i) c.pool }
    step_call (finishing_job i) c = record c { pool = step_pool processor (finishing i) c.pool }
    step_call (putting_result i) c = record c { pool = step_pool processor (putting i) c.pool }
    step_call (leaving_pool i) c = record c { pool = step_pool processor (leaving i) c.pool }

    unfoldable pub run_call : List CallEvent → Call P O → Call P O
    run_call [] c = c
    run_call (e ∷ events) c = run_call events (step_call e c)
