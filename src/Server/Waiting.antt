-- ===== src/Server/Waiting.antt =====
-- internal/server/worker.go: `SubmitAndWait` returns.
use mathlib.Core.Path.{subst}
use geo_spatial_dispatch_ser.Prelude.{
  ℕ, zero, suc, ◌+◌, ◌*◌, ◌<◌, ◌≡◌, ◌≢◌, refl, sym, ap, false, not, List, [], ◌∷◌, arith, if-holds,
}
use geo_spatial_dispatch_ser.Realtime.Clients.{length}
use geo_spatial_dispatch_ser.Server.Workers.{
  Job, JobResult, Worker, idle, exited, processing, sending, worker_at, set_worker, take_job,
  finish_job, step_pool,
}
use geo_spatial_dispatch_ser.Server.Calls.{
  Call, CallEvent, handing_next, collecting, collecting_from, taking_job, finishing_job, hand_next,
  collect, collect_from, step_call,
}

module _ {P O : Type 0} where
  -- How many steps a worker's job still needs.
  abbrev pub weight : Worker P O → ℕ
  weight idle = 0
  weight exited = 0
  weight (processing job) = 3
  weight (sending result) = 2

  abbrev pub weights : List (Worker P O) → ℕ
  weights [] = 0
  weights (w ∷ ws) = weight w + weights ws

  -- How many steps are left, at most.
  abbrev pub steps_left : Call P O → ℕ
  steps_left c =
      5 * length c.unsent + 4 * length c.pool.jobs + weights c.pool.workers + length c.pool.results

  weights-set :
      (i : ℕ) (v w : Worker P O) (ws : List (Worker P O))
      → worker_at i ws ≡ w
      → w ≢ exited
      → weights (set_worker i v ws) + weight w ≡ weights ws + weight v
  weights-set i v w [] e there = absurd (there (sym e))
  weights-set zero v w (x ∷ ws) e there = rw (sym e) (omega arith)
  weights-set (suc i) v w (x ∷ ws) e there = omega (arith, weights-set i v w ws e there)

  -- A worker that has something to do, or none.
  pub data Found (ws : List (Worker P O)) : Type 0 where
    sender : (i : ℕ) (r : JobResult O) → worker_at i ws ≡ sending r → Found ws
    worker : (i : ℕ) (j : Job P) → worker_at i ws ≡ processing j → Found ws
    nobody : weights ws ≡ 0 → Found ws

  Found-cons : (w : Worker P O) (ws : List (Worker P O)) → Found ws → Found (w ∷ ws)
  Found-cons (sending r) ws f = sender 0 r refl
  Found-cons (processing j) ws f = worker 0 j refl
  Found-cons idle ws (sender i r e) = sender (suc i) r e
  Found-cons idle ws (worker i j e) = worker (suc i) j e
  Found-cons idle ws (nobody e) = nobody (omega (arith, e))
  Found-cons exited ws (sender i r e) = sender (suc i) r e
  Found-cons exited ws (worker i j e) = worker (suc i) j e
  Found-cons exited ws (nobody e) = nobody (omega (arith, e))

  pub find_worker : (ws : List (Worker P O)) → Found ws
  find_worker [] = nobody refl
  find_worker (w ∷ ws) = Found-cons w ws (find_worker ws)

  pub first-idle :
      (ws : List (Worker P O)) → weights ws ≡ 0 → worker_at 0 ws ≢ exited → worker_at 0 ws ≡ idle
  first-idle [] e n = absurd (n refl)
  first-idle (idle ∷ ws) e n = refl
  first-idle (exited ∷ ws) e n = absurd (n refl)
  first-idle (processing j ∷ ws) e n = absurd (omega (arith, e))
  first-idle (sending r ∷ ws) e n = absurd (omega (arith, e))

  module _ (processor : Job P → JobResult O) where
    -- A step that brings the call nearer to its end.
    pub record Progress (c : Call P O) : Type 0 where
      pub event : CallEvent
      pub nearer : steps_left (step_call processor event c) < steps_left c

    pub collect-Progress :
        (n : ℕ) (r : JobResult O) (rs : List (JobResult O)) (c : Call P O)
        → c.wanted ≡ suc n
        → c.pool.results ≡ r ∷ rs
        → Progress c
    unfolding step_call
    collect-Progress n r rs c e q = record {
      event = collecting;
      nearer =
          subst (λ x. steps_left (collect x c.pool.results c) < steps_left c) (sym e)
            (subst (λ x. steps_left (collect (suc n) x c) < steps_left c) (sym q)
              (omega (arith, ap length q)));
    }

    pub give-Progress :
        (n i : ℕ) (r : JobResult O) (c : Call P O)
        → c.wanted ≡ suc n
        → c.pool.results ≡ []
        → worker_at i c.pool.workers ≡ sending r
        → Progress c
    unfolding step_call
    give-Progress n i r c e q at_i = record {
      event = collecting_from i;
      nearer =
          subst
            (λ x.
              steps_left (collect_from i x (worker_at i c.pool.workers) c.pool.results c)
              < steps_left c)
            (sym e)
            (subst (λ x. steps_left (collect_from i (suc n) x c.pool.results c) < steps_left c)
              (sym at_i)
              (subst (λ x. steps_left (collect_from i (suc n) (sending r) x c) < steps_left c)
                (sym q)
                (omega (arith, weights-set i idle (sending r) c.pool.workers at_i (λ f. cc f)))));
    }

    pub finish-Progress :
        (i : ℕ) (j : Job P) (c : Call P O) → worker_at i c.pool.workers ≡ processing j → Progress c
    unfolding step_call step_pool
    finish-Progress i j c at_i = record {
      event = finishing_job i;
      nearer =
          subst
            (λ x. steps_left (record c { pool = finish_job processor i x c.pool }) < steps_left c)
            (sym at_i)
            (omega (
              arith,
              weights-set i (sending (processor j)) (processing j) c.pool.workers at_i (λ f. cc f),
            ));
    }

    pub take-Progress :
        (j : Job P) (js : List (Job P)) (c : Call P O)
        → worker_at 0 c.pool.workers ≡ idle
        → c.pool.jobs ≡ j ∷ js
        → Progress c
    unfolding step_call step_pool
    take-Progress j js c at_0 q = record {
      event = taking_job 0;
      nearer =
          subst
            (λ x. steps_left (record c { pool = take_job 0 x c.pool.jobs c.pool }) < steps_left c)
            (sym at_0)
            (subst (λ x. steps_left (record c { pool = take_job 0 idle x c.pool }) < steps_left c)
              (sym q)
              (omega (
                arith,
                ap length q,
                weights-set 0 (processing j) idle c.pool.workers at_0 (λ f. cc f),
              )));
    }

    pub hand-Progress :
        (j : Job P) (js : List (Job P)) (c : Call P O)
        → c.pool.jobs_closed ≡ false
        → c.unsent ≡ j ∷ js
        → c.pool.jobs ≡ []
        → worker_at 0 c.pool.workers ≡ idle
        → Progress c
    unfolding step_call
    hand-Progress j js c open_jobs e q at_0 = record {
      event = handing_next 0;
      nearer =
          subst
            (λ x.
              steps_left (hand_next 0 x (worker_at 0 c.pool.workers) c.pool.jobs c) < steps_left c)
            (sym e)
            (subst (λ x. steps_left (hand_next 0 (j ∷ js) x c.pool.jobs c) < steps_left c)
              (sym at_0)
              (subst (λ x. steps_left (hand_next 0 (j ∷ js) idle x c) < steps_left c) (sym q)
                lower));
    }
      where
        lower : steps_left (hand_next 0 (j ∷ js) idle [] c) < steps_left c
        lower =
            if-holds (λ x. steps_left x < steps_left c) (not c.pool.jobs_closed) _ c
              (λ h.
                if-holds (λ p. steps_left (record c { pool = p; unsent = js }) < steps_left c)
                  (not c.pool.jobs_closed) _ c.pool
                  (λ _. omega (
                    arith,
                    ap length e,
                    weights-set 0 (processing j) idle c.pool.workers at_0 (λ f. cc f),
                  ))
                  (λ shut. absurd (cc (h, shut))))
              (λ shut. absurd (cc (shut, open_jobs)))
