-- ===== src/Server/Workers.antt =====
-- internal/server/worker.go: the pool of workers. The processor is a parameter. A send on a channel goes
-- to its buffer if that has room, or straight to a receiver that waits.
use geo_spatial_dispatch_ser.Prelude.{
  ℕ, zero, suc, String, Bool, true, false, not, ◌&&◌, Option, List, [], ◌∷◌, ◌++◌, ltb,
  if◌then◌else◌,
}
use geo_spatial_dispatch_ser.Result.{Error}
use geo_spatial_dispatch_ser.Realtime.Clients.{length}

pub record Job (P : Type 0) : Type 0 where
  pub id : String
  pub payload : P

-- `Result`
pub record JobResult (O : Type 0) : Type 0 where
  pub job_id : String
  pub output : O
  pub error_value : Option Error

-- A worker waits for a job, or works on one, or waits to send its result, or has returned.
pub data Worker (P O : Type 0) : Type 0 where
  idle exited : Worker P O
  processing : Job P → Worker P O
  sending : JobResult O → Worker P O

-- `cancelled` is the state of the context. The last three lists record what callers have submitted and
-- received, and which results and jobs a cancelled worker has dropped.
pub record WorkerPool (P O : Type 0) : Type 0 where
  pub worker_count : ℕ
  pub buffer_size : ℕ
  pub jobs : List (Job P)
  pub results : List (JobResult O)
  pub workers : List (Worker P O)
  pub jobs_closed : Bool
  pub cancelled : Bool
  pub submitted : List (Job P)
  pub received : List (JobResult O)
  pub dropped : List (JobResult O)

pub data Event (P : Type 0) : Type 0 where
  starting closing_jobs cancelling receiving : Event P
  submitting : Job P → Event P
  handing : ℕ → Job P → Event P
  taking finishing putting giving leaving : ℕ → Event P

abbrev pub replicate {ℓ} : {A : Type ℓ} → ℕ → A → List A
replicate zero x = []
replicate (suc n) x = x ∷ replicate n x

module _ {P O : Type 0} where
  abbrev pub worker_at : ℕ → List (Worker P O) → Worker P O
  worker_at n [] = exited
  worker_at zero (w ∷ ws) = w
  worker_at (suc n) (w ∷ ws) = worker_at n ws

  abbrev pub set_worker : ℕ → Worker P O → List (Worker P O) → List (Worker P O)
  set_worker n v [] = []
  set_worker zero v (w ∷ ws) = v ∷ ws
  set_worker (suc n) v (w ∷ ws) = w ∷ set_worker n v ws

  unfoldable pub new_worker_pool : ℕ → ℕ → WorkerPool P O
  new_worker_pool worker_count buffer_size = record {
    worker_count = worker_count;
    buffer_size = buffer_size;
    jobs = [];
    results = [];
    workers = [];
    jobs_closed = false;
    cancelled = false;
    submitted = [];
    received = [];
    dropped = [];
  }

  unfoldable pub start : WorkerPool P O → WorkerPool P O
  start wp = record wp { workers = wp.workers ++ replicate wp.worker_count idle }

  -- `Submit`, into the buffer, and to a worker that waits. A send on the closed channel panics, which
  -- is no step.
  unfoldable pub submit : Job P → WorkerPool P O → WorkerPool P O
  submit job wp =
      if not wp.jobs_closed && ltb (length wp.jobs) wp.buffer_size
      then record wp { jobs = wp.jobs ++ (job ∷ []); submitted = job ∷ wp.submitted }
      else wp

  abbrev pub hand_job : ℕ → Job P → Worker P O → List (Job P) → WorkerPool P O → WorkerPool P O
  hand_job i job idle [] wp =
      if not wp.jobs_closed
      then record wp {
        workers = set_worker i (processing job) wp.workers;
        submitted = job ∷ wp.submitted;
      }
      else wp
  hand_job i job w jobs wp = wp

  -- The receive of `worker`, where the channel has a job, and where it is closed and empty.
  abbrev pub take_job : ℕ → Worker P O → List (Job P) → WorkerPool P O → WorkerPool P O
  take_job i idle (job ∷ rest) wp = record wp {
    jobs = rest;
    workers = set_worker i (processing job) wp.workers;
  }
  take_job i idle [] wp =
      if wp.jobs_closed then record wp { workers = set_worker i exited wp.workers } else wp
  take_job i w jobs wp = wp

  abbrev pub put_result : ℕ → Worker P O → WorkerPool P O → WorkerPool P O
  put_result i (sending result) wp =
      if ltb (length wp.results) wp.buffer_size
      then record wp {
        results = wp.results ++ (result ∷ []);
        workers = set_worker i idle wp.workers;
      }
      else wp
  put_result i w wp = wp

  -- The result goes straight to a reader of `Results`.
  abbrev pub give_result : ℕ → Worker P O → List (JobResult O) → WorkerPool P O → WorkerPool P O
  give_result i (sending result) [] wp = record wp {
    received = result ∷ wp.received;
    workers = set_worker i idle wp.workers;
  }
  give_result i w results wp = wp

  -- The cases of `ctx.Done()`.
  abbrev pub leave_pool : ℕ → Worker P O → WorkerPool P O → WorkerPool P O
  leave_pool i idle wp =
      if wp.cancelled then record wp { workers = set_worker i exited wp.workers } else wp
  leave_pool i (sending result) wp =
      if wp.cancelled
      then record wp { workers = set_worker i exited wp.workers; dropped = result ∷ wp.dropped }
      else wp
  leave_pool i w wp = wp

  abbrev pub receive_result : List (JobResult O) → WorkerPool P O → WorkerPool P O
  receive_result [] wp = wp
  receive_result (result ∷ rest) wp = record wp { results = rest; received = result ∷ wp.received }

  module _ (processor : Job P → JobResult O) where
    abbrev pub finish_job : ℕ → Worker P O → WorkerPool P O → WorkerPool P O
    finish_job i (processing job) wp = record wp {
      workers = set_worker i (sending (processor job)) wp.workers;
    }
    finish_job i w wp = wp

    -- One step of a worker or of a caller; `closing_jobs` and `cancelling` are the first steps of `Stop`
    -- and `Shutdown`, which then wait for the workers.
    unfoldable pub step_pool : Event P → WorkerPool P O → WorkerPool P O
    step_pool starting wp = start wp
    step_pool (submitting job) wp = submit job wp
    step_pool (handing i job) wp = hand_job i job (worker_at i wp.workers) wp.jobs wp
    step_pool (taking i) wp = take_job i (worker_at i wp.workers) wp.jobs wp
    step_pool (finishing i) wp = finish_job i (worker_at i wp.workers) wp
    step_pool (putting i) wp = put_result i (worker_at i wp.workers) wp
    step_pool (giving i) wp = give_result i (worker_at i wp.workers) wp.results wp
    step_pool (leaving i) wp = leave_pool i (worker_at i wp.workers) wp
    step_pool receiving wp = receive_result wp.results wp
    step_pool closing_jobs wp = record wp { jobs_closed = true }
    step_pool cancelling wp = record wp { cancelled = true }

    unfoldable pub run_pool : List (Event P) → WorkerPool P O → WorkerPool P O
    run_pool [] wp = wp
    run_pool (e ∷ events) wp = run_pool events (step_pool e wp)
