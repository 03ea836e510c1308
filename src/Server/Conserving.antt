-- ===== src/Server/Conserving.antt =====
-- internal/server/worker.go: no job is lost, and none is done twice.
use geo_spatial_dispatch_ser.Prelude.{
  ℕ, zero, suc, ◌+◌, ◌≡◌, ◌≢◌, refl, sym, ap, Bool, not, ◌&&◌, List, [], ◌∷◌, ◌++◌, arith, if-holds,
  ltb, if◌then◌else◌,
}
use geo_spatial_dispatch_ser.Realtime.Clients.{length}
use geo_spatial_dispatch_ser.Server.Workers.{
  Job, JobResult, Worker, idle, exited, processing, sending, WorkerPool, Event, starting,
  closing_jobs, cancelling, receiving, submitting, handing, taking, finishing, putting, giving,
  leaving, replicate, worker_at, set_worker, new_worker_pool, start, submit, hand_job, take_job,
  finish_job, put_result, give_result, leave_pool, receive_result, step_pool, run_pool,
}

module _ {P O : Type 0} (processor : Job P → JobResult O) (test : JobResult O → Bool) where
  abbrev one : JobResult O → ℕ
  one r = if test r then 1 else 0

  -- How many results the test accepts.
  abbrev pub tally : List (JobResult O) → ℕ
  tally [] = 0
  tally (r ∷ rs) = one r + tally rs

  -- How many of the jobs have a result that the test accepts.
  abbrev pub tally_jobs : List (Job P) → ℕ
  tally_jobs [] = 0
  tally_jobs (j ∷ js) = one (processor j) + tally_jobs js

  abbrev held_by : Worker P O → ℕ
  held_by (processing job) = one (processor job)
  held_by (sending result) = one result
  held_by idle = 0
  held_by exited = 0

  abbrev pub tally_workers : List (Worker P O) → ℕ
  tally_workers [] = 0
  tally_workers (w ∷ ws) = held_by w + tally_workers ws

  -- All places where a job or its result can be.
  abbrev pub accounted : WorkerPool P O → ℕ
  accounted wp =
      tally_jobs wp.jobs
      + tally_workers wp.workers
      + tally wp.results
      + tally wp.received
      + tally wp.dropped

  pub tally-append :
      (rs : List (JobResult O)) (r : JobResult O) → tally (rs ++ (r ∷ [])) ≡ tally rs + one r
  tally-append [] r = omega arith
  tally-append (x ∷ rs) r = omega (arith, tally-append rs r)

  pub jobs-append :
      (js : List (Job P)) (j : Job P)
      → tally_jobs (js ++ (j ∷ [])) ≡ tally_jobs js + one (processor j)
  jobs-append [] j = omega arith
  jobs-append (x ∷ js) j = omega (arith, jobs-append js j)

  pub workers-append :
      (ws vs : List (Worker P O)) → tally_workers (ws ++ vs) ≡ tally_workers ws + tally_workers vs
  workers-append [] vs = omega arith
  workers-append (w ∷ ws) vs = omega (arith, workers-append ws vs)

  pub workers-replicate : (n : ℕ) → tally_workers (replicate n idle) ≡ 0
  workers-replicate zero = refl
  workers-replicate (suc n) = omega (arith, workers-replicate n)

  -- Replacing a worker that is there.
  pub workers-set :
      (i : ℕ) (v w : Worker P O) (ws : List (Worker P O))
      → worker_at i ws ≡ w
      → w ≢ exited
      → tally_workers (set_worker i v ws) + held_by w ≡ tally_workers ws + held_by v
  workers-set i v w [] e there = absurd (there (sym e))
  workers-set zero v w (x ∷ ws) e there = rw (sym e) (omega arith)
  workers-set (suc i) v w (x ∷ ws) e there = omega (arith, workers-set i v w ws e there)

  -- A step accounts for what it submits, and for nothing else.
  abbrev Conserves : WorkerPool P O → WorkerPool P O → Type 0
  Conserves wp vp = accounted wp ≡ tally_jobs wp.submitted → accounted vp ≡ tally_jobs vp.submitted

  start-Conserves : (wp : WorkerPool P O) → Conserves wp (start wp)
  unfolding start
  start-Conserves wp h = omega (
    arith,
    h,
    workers-append wp.workers (replicate wp.worker_count idle),
    workers-replicate wp.worker_count,
  )

  submit-Conserves : (job : Job P) (wp : WorkerPool P O) → Conserves wp (submit job wp)
  unfolding submit
  submit-Conserves job wp =
      if-holds (Conserves wp) (not wp.jobs_closed && ltb (length wp.jobs) wp.buffer_size) _ wp
        (λ _ h. omega (arith, h, jobs-append wp.jobs job)) (λ _ h. h)

  hand-Conserves :
      (i : ℕ) (job : Job P) (w : Worker P O) (jobs : List (Job P)) (wp : WorkerPool P O)
      → worker_at i wp.workers ≡ w
      → Conserves wp (hand_job i job w jobs wp)
  hand-Conserves i job idle [] wp e =
      if-holds (Conserves wp) (not wp.jobs_closed) _ wp
        (λ _ h. omega (arith, h, workers-set i (processing job) idle wp.workers e (λ f. cc f)))
        (λ _ h. h)
  hand-Conserves i job idle (j ∷ js) wp e = λ h. h
  hand-Conserves i job exited jobs wp e = λ h. h
  hand-Conserves i job (processing j) jobs wp e = λ h. h
  hand-Conserves i job (sending r) jobs wp e = λ h. h

  take-Conserves :
      (i : ℕ) (w : Worker P O) (jobs : List (Job P)) (wp : WorkerPool P O)
      → worker_at i wp.workers ≡ w
      → wp.jobs ≡ jobs
      → Conserves wp (take_job i w jobs wp)
  take-Conserves i idle (job ∷ rest) wp e f = λ h.
      omega
        (arith, h, ap tally_jobs f, workers-set i (processing job) idle wp.workers e (λ g. cc g))
  take-Conserves i idle [] wp e f =
      if-holds (Conserves wp) wp.jobs_closed _ wp
        (λ _ h. omega (arith, h, workers-set i exited idle wp.workers e (λ g. cc g))) (λ _ h. h)
  take-Conserves i exited jobs wp e f = λ h. h
  take-Conserves i (processing j) jobs wp e f = λ h. h
  take-Conserves i (sending r) jobs wp e f = λ h. h

  finish-Conserves :
      (i : ℕ) (w : Worker P O) (wp : WorkerPool P O)
      → worker_at i wp.workers ≡ w
      → Conserves wp (finish_job processor i w wp)
  finish-Conserves i (processing job) wp e h =
      omega (
        arith,
        h,
        workers-set i (sending (processor job)) (processing job) wp.workers e (λ g. cc g),
      )
  finish-Conserves i idle wp e h = h
  finish-Conserves i exited wp e h = h
  finish-Conserves i (sending r) wp e h = h

  put-Conserves :
      (i : ℕ) (w : Worker P O) (wp : WorkerPool P O)
      → worker_at i wp.workers ≡ w
      → Conserves wp (put_result i w wp)
  put-Conserves i (sending r) wp e =
      if-holds (Conserves wp) (ltb (length wp.results) wp.buffer_size) _ wp
        (λ _ h. omega (
          arith,
          h,
          tally-append wp.results r,
          workers-set i idle (sending r) wp.workers e (λ g. cc g),
        ))
        (λ _ h. h)
  put-Conserves i idle wp e = λ h. h
  put-Conserves i exited wp e = λ h. h
  put-Conserves i (processing j) wp e = λ h. h

  give-Conserves :
      (i : ℕ) (w : Worker P O) (results : List (JobResult O)) (wp : WorkerPool P O)
      → worker_at i wp.workers ≡ w
      → Conserves wp (give_result i w results wp)
  give-Conserves i (sending r) [] wp e h =
      omega (arith, h, workers-set i idle (sending r) wp.workers e (λ g. cc g))
  give-Conserves i (sending r) (x ∷ xs) wp e h = h
  give-Conserves i idle results wp e h = h
  give-Conserves i exited results wp e h = h
  give-Conserves i (processing j) results wp e h = h

  leave-Conserves :
      (i : ℕ) (w : Worker P O) (wp : WorkerPool P O)
      → worker_at i wp.workers ≡ w
      → Conserves wp (leave_pool i w wp)
  leave-Conserves i idle wp e =
      if-holds (Conserves wp) wp.cancelled _ wp
        (λ _ h. omega (arith, h, workers-set i exited idle wp.workers e (λ g. cc g))) (λ _ h. h)
  leave-Conserves i (sending r) wp e =
      if-holds (Conserves wp) wp.cancelled _ wp
        (λ _ h. omega (arith, h, workers-set i exited (sending r) wp.workers e (λ g. cc g)))
        (λ _ h. h)
  leave-Conserves i exited wp e = λ h. h
  leave-Conserves i (processing j) wp e = λ h. h

  receive-Conserves :
      (results : List (JobResult O)) (wp : WorkerPool P O)
      → wp.results ≡ results
      → Conserves wp (receive_result results wp)
  receive-Conserves [] wp e h = h
  receive-Conserves (r ∷ rest) wp e h = omega (arith, h, ap tally e)

  step-Conserves : (e : Event P) (wp : WorkerPool P O) → Conserves wp (step_pool processor e wp)
  unfolding step_pool
  step-Conserves starting wp = start-Conserves wp
  step-Conserves (submitting job) wp = submit-Conserves job wp
  step-Conserves (handing i job) wp = hand-Conserves i job _ wp.jobs wp refl
  step-Conserves (taking i) wp = take-Conserves i _ wp.jobs wp refl refl
  step-Conserves (finishing i) wp = finish-Conserves i _ wp refl
  step-Conserves (putting i) wp = put-Conserves i _ wp refl
  step-Conserves (giving i) wp = give-Conserves i _ wp.results wp refl
  step-Conserves (leaving i) wp = leave-Conserves i _ wp refl
  step-Conserves receiving wp = receive-Conserves wp.results wp refl
  step-Conserves closing_jobs wp = λ h. h
  step-Conserves cancelling wp = λ h. h

  run-Conserves :
      (events : List (Event P)) (wp : WorkerPool P O) → Conserves wp (run_pool processor events wp)
  unfolding run_pool
  run-Conserves [] wp h = h
  run-Conserves (e ∷ events) wp h =
      run-Conserves events (step_pool processor e wp) (step-Conserves e wp h)

  -- In every run of a new pool, for any number of workers, any buffers and any order of the steps: each
  -- submitted job is once in the queue, at a worker, in the results, received, or dropped by a worker that
  -- was cancelled, and its result is the processor's, as counted by any test on results.
  pub run_pool-accounts :
      (worker_count buffer_size : ℕ) (events : List (Event P))
      → let wp = run_pool processor events (new_worker_pool worker_count buffer_size) in
        accounted wp ≡ tally_jobs wp.submitted
  unfolding new_worker_pool
  run_pool-accounts worker_count buffer_size events =
      run-Conserves events (new_worker_pool worker_count buffer_size) (omega arith)
