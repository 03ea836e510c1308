-- ===== src/Server/Finishing.antt =====
-- internal/server/worker.go: `SubmitAndWait` returns the results of its jobs.
use geo_spatial_dispatch_ser.Prelude.{
  ℕ, zero, suc, ◌≤◌, ◌≡◌, ◌⊎◌, refl, ap, Bool, true, false, List, [], ◌∷◌, arith, if◌then◌else◌,
  inl, inr,
}
use geo_spatial_dispatch_ser.Realtime.Clients.{length}
use geo_spatial_dispatch_ser.Server.Workers.{
  Job, JobResult, Worker, idle, exited, processing, sending, new_worker_pool, start,
}
use geo_spatial_dispatch_ser.Server.Conserving.{tally, tally_jobs, tally_workers}
use geo_spatial_dispatch_ser.Server.Calls.{Call, CallEvent, calling, step_call, run_call}
use geo_spatial_dispatch_ser.Server.Collecting.{IsUnderway}
use geo_spatial_dispatch_ser.Server.Collecting.Runs.{
  step-IsUnderway, run-IsUnderway, calling-IsUnderway,
}
use geo_spatial_dispatch_ser.Server.Waiting.{
  weights, steps_left, Found, sender, worker, nobody, find_worker, first-idle, Progress,
  collect-Progress, give-Progress, finish-Progress, take-Progress, hand-Progress,
}

module _ {P O : Type 0} (processor : Job P → JobResult O) where
  abbrev every : JobResult O → Bool
  every r = true

  jobs-length : (js : List (Job P)) → tally_jobs processor every js ≡ length js
  jobs-length [] = refl
  jobs-length (j ∷ js) = omega (arith, jobs-length js)

  results-length : (rs : List (JobResult O)) → tally processor every rs ≡ length rs
  results-length [] = refl
  results-length (r ∷ rs) = omega (arith, results-length rs)

  workers-none : (ws : List (Worker P O)) → weights ws ≡ 0 → tally_workers processor every ws ≡ 0
  workers-none [] e = refl
  workers-none (idle ∷ ws) e = omega (arith, workers-none ws (omega (arith, e)))
  workers-none (exited ∷ ws) e = omega (arith, workers-none ws (omega (arith, e)))
  workers-none (processing j ∷ ws) e = absurd (omega (arith, e))
  workers-none (sending r ∷ ws) e = absurd (omega (arith, e))

  one-le : (b : Bool) → (if b then 1 else 0) ≤ 1
  one-le true = omega arith
  one-le false = omega arith

  module _ (test : JobResult O → Bool) where
    jobs-le : (js : List (Job P)) → tally_jobs processor test js ≤ tally_jobs processor every js
    jobs-le [] = omega arith
    jobs-le (j ∷ js) = omega (arith, one-le (test (processor j)), jobs-le js)

    results-le : (rs : List (JobResult O)) → tally processor test rs ≤ tally processor every rs
    results-le [] = omega arith
    results-le (r ∷ rs) = omega (arith, one-le (test r), results-le rs)

    workers-le :
        (ws : List (Worker P O))
        → tally_workers processor test ws ≤ tally_workers processor every ws
    workers-le [] = omega arith
    workers-le (idle ∷ ws) = omega (arith, workers-le ws)
    workers-le (exited ∷ ws) = omega (arith, workers-le ws)
    workers-le (processing j ∷ ws) = omega (arith, one-le (test (processor j)), workers-le ws)
    workers-le (sending r ∷ ws) = omega (arith, one-le (test r), workers-le ws)

  module _ (jobs : List (Job P)) where
    -- Where the collector is done, it has the result of each job, once.
    collected-all :
        (c : Call P O)
        → IsUnderway processor jobs c
        → c.wanted ≡ 0
        → (test : JobResult O → Bool)
        → tally processor test c.collected ≡ tally_jobs processor test jobs
    collected-all c u done test = omega (
      arith,
      done,
      u.remaining,
      u.counted every,
      u.counted test,
      jobs-length jobs,
      results-length c.collected,
      jobs-le test c.unsent,
      jobs-le test c.pool.jobs,
      workers-le test c.pool.workers,
      results-le test c.pool.results,
    )

    idle-Progress :
        (n : ℕ) (js us : List (Job P)) (c : Call P O)
        → IsUnderway processor jobs c
        → c.wanted ≡ suc n
        → c.pool.results ≡ []
        → weights c.pool.workers ≡ 0
        → c.pool.jobs ≡ js
        → c.unsent ≡ us
        → Progress processor c
    idle-Progress n (j ∷ js) us c u e q none qj qu =
        take-Progress processor j js c (first-idle c.pool.workers none u.staffed) qj
    idle-Progress n [] (j ∷ js) c u e q none qj qu =
        hand-Progress processor j js c u.open_jobs qu qj (first-idle c.pool.workers none u.staffed)
    idle-Progress n [] [] c u e q none qj qu = absurd (
        omega (
          arith,
          e,
          u.remaining,
          u.counted every,
          jobs-length jobs,
          results-length c.collected,
          workers-none c.pool.workers none,
          ap (tally processor every) q,
          ap (tally_jobs processor every) qj,
          ap (tally_jobs processor every) qu,
        ))

    Found-Progress :
        (n : ℕ) (c : Call P O)
        → IsUnderway processor jobs c
        → c.wanted ≡ suc n
        → c.pool.results ≡ []
        → Found c.pool.workers
        → Progress processor c
    Found-Progress n c u e q (sender i r at_i) = give-Progress processor n i r c e q at_i
    Found-Progress n c u e q (worker i j at_i) = finish-Progress processor i j c at_i
    Found-Progress n c u e q (nobody none) =
        idle-Progress n c.pool.jobs c.unsent c u e q none refl refl

    Progress-on :
        (n : ℕ) (rs : List (JobResult O)) (c : Call P O)
        → IsUnderway processor jobs c
        → c.wanted ≡ n
        → c.pool.results ≡ rs
        → (c.wanted ≡ 0) ⊎ Progress processor c
    Progress-on zero rs c u e q = inl e
    Progress-on (suc n) (r ∷ rs) c u e q = inr (collect-Progress processor n r rs c e q)
    Progress-on (suc n) [] c u e q = inr (Found-Progress n c u e q (find_worker c.pool.workers))

    -- A way to the end of the call, with a bound on its length, and what has been collected then.
    pub record Returns (c : Call P O) : Type 0 where
      pub events : List CallEvent
      pub done : (run_call processor events c).wanted ≡ 0
      pub short : length events ≤ steps_left c
      pub complete :
          (test : JobResult O → Bool)
          → tally processor test (run_call processor events c).collected
            ≡ tally_jobs processor test jobs

    returned : (c : Call P O) → IsUnderway processor jobs c → c.wanted ≡ 0 → Returns c
    unfolding run_call
    returned c u e = record {
      events = [];
      done = e;
      short = omega arith;
      complete = collected-all c u e;
    }

    nearer-Returns :
        (c : Call P O) (p : Progress processor c)
        → Returns (step_call processor p.event c)
        → Returns c
    unfolding run_call
    nearer-Returns c p r = record {
      events = p.event ∷ r.events;
      done = r.done;
      complete = r.complete;
      short = omega (arith, r.short, p.nearer);
    }

    returns : (n : ℕ) (c : Call P O) → IsUnderway processor jobs c → steps_left c ≤ n → Returns c
    returns zero c u h = elim (Progress-on c.wanted c.pool.results c u refl refl) [
      | inl e ↦ returned c u e
      | inr p ↦ absurd (omega (arith, h, p.nearer))
    ]
    returns (suc n) c u h = elim (Progress-on c.wanted c.pool.results c u refl refl) [
      | inl e ↦ returned c u e
      | inr p ↦
          nearer-Returns c p
            (returns n _ (step-IsUnderway processor jobs p.event c u) (omega (arith, h, p.nearer)))
    ]

    resumes : (c : Call P O) → IsUnderway processor jobs c → Returns c
    resumes c u = returns (steps_left c) c u (omega arith)

    -- Wherever a run of the workers, the collector and the loop over the jobs has come to, in any order of
    -- their steps, `SubmitAndWait` on a new pool of at least one worker, of any buffer size, still comes to
    -- its end: there are further steps, no more than `steps_left`, after which the collector is done, and
    -- then it has exactly the processor's results of the jobs, as counted by any test on results. Nobody
    -- closes or cancels the pool meanwhile, and there is no other caller.
    pub submit_and_wait-returns :
        (others buffer_size : ℕ) (events : List CallEvent)
        → Returns (
            run_call processor events
              (calling jobs (start (new_worker_pool (suc others) buffer_size))))
    submit_and_wait-returns others buffer_size events = resumes _ (
        run-IsUnderway processor jobs events _
          (calling-IsUnderway processor jobs others buffer_size))
