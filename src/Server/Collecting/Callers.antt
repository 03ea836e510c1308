-- ===== src/Server/Collecting/Callers.antt =====
-- internal/server/worker.go: the steps of the loop over the jobs and of the collector.
use geo_spatial_dispatch_ser.Prelude.{
  ℕ, zero, suc, ◌≡◌, ap, not, List, [], ◌∷◌, arith, if-holds, Bool-cases, inl, inr,
}
use geo_spatial_dispatch_ser.Server.Workers.{
  Job, JobResult, Worker, idle, exited, processing, sending, worker_at, submit,
}
use geo_spatial_dispatch_ser.Server.Conserving.{
  tally, tally_jobs, tally-append, jobs-append, workers-set,
}
use geo_spatial_dispatch_ser.Server.Calls.{
  Call, has_room, send_next, hand_next, skip_next, collect, collect_from,
}
use geo_spatial_dispatch_ser.Server.Collecting.{IsUnderway, worker-set, length-snoc}

module _ {P O : Type 0} (processor : Job P → JobResult O) where
  module _ (all : List (Job P)) where
    pub send-IsUnderway :
        (js : List (Job P)) (c : Call P O)
        → c.unsent ≡ js
        → IsUnderway processor all c
        → IsUnderway processor all (send_next js c)
    unfolding submit
    send-IsUnderway [] c e u = u
    send-IsUnderway (j ∷ js) c e u = elim (Bool-cases (has_room c.pool)) [
      | inl room ↦ rw room (record {
        open_jobs = u.open_jobs;
        live = u.live;
        staffed = u.staffed;
        counted = λ test. omega (
          arith,
          u.counted test,
          ap (tally_jobs processor test) e,
          jobs-append processor test c.pool.jobs j,
        );
        remaining = u.remaining;
      })
      | inr full ↦ rw full u
    ]

    pub hand-IsUnderway :
        (i : ℕ) (js : List (Job P)) (w : Worker P O) (waiting : List (Job P)) (c : Call P O)
        → c.unsent ≡ js
        → worker_at i c.pool.workers ≡ w
        → IsUnderway processor all c
        → IsUnderway processor all (hand_next i js w waiting c)
    hand-IsUnderway i (j ∷ js) idle [] c e at_i u =
        if-holds (IsUnderway processor all) (not c.pool.jobs_closed) _ c
          (λ h.
            if-holds (λ p. IsUnderway processor all (record c { pool = p; unsent = js }))
              (not c.pool.jobs_closed) _ c.pool
              (λ _. record {
                open_jobs = u.open_jobs;
                live = u.live;
                staffed = worker-set i (processing j) c.pool.workers (λ f. cc f) u.staffed;
                counted = λ test. omega (
                  arith,
                  u.counted test,
                  ap (tally_jobs processor test) e,
                  workers-set processor test i (processing j) idle c.pool.workers at_i (λ f. cc f),
                );
                remaining = u.remaining;
              })
              (λ shut. absurd (cc (h, shut))))
          (λ _. u)
    hand-IsUnderway i [] w waiting c e at_i u = u
    hand-IsUnderway i (j ∷ js) idle (k ∷ ks) c e at_i u = u
    hand-IsUnderway i (j ∷ js) exited waiting c e at_i u = u
    hand-IsUnderway i (j ∷ js) (processing k) waiting c e at_i u = u
    hand-IsUnderway i (j ∷ js) (sending r) waiting c e at_i u = u

    pub skip-IsUnderway :
        (js : List (Job P)) (c : Call P O)
        → IsUnderway processor all c
        → IsUnderway processor all (skip_next js c)
    skip-IsUnderway [] c u = u
    skip-IsUnderway (j ∷ js) c u =
        if-holds (IsUnderway processor all) c.pool.cancelled _ c (λ e. absurd (cc (e, u.live)))
          (λ _. u)

    pub collect-IsUnderway :
        (n : ℕ) (rs : List (JobResult O)) (c : Call P O)
        → c.wanted ≡ n
        → c.pool.results ≡ rs
        → IsUnderway processor all c
        → IsUnderway processor all (collect n rs c)
    collect-IsUnderway (suc n) (r ∷ rs) c e q u = record {
      open_jobs = u.open_jobs;
      live = u.live;
      staffed = u.staffed;
      counted = λ test. omega (
        arith,
        u.counted test,
        ap (tally processor test) q,
        tally-append processor test c.collected r,
      );
      remaining = omega (arith, e, u.remaining, length-snoc c.collected r);
    }
    collect-IsUnderway zero rs c e q u = u
    collect-IsUnderway (suc n) [] c e q u = u

    pub collect_from-IsUnderway :
        (i n : ℕ) (w : Worker P O) (rs : List (JobResult O)) (c : Call P O)
        → c.wanted ≡ n
        → worker_at i c.pool.workers ≡ w
        → IsUnderway processor all c
        → IsUnderway processor all (collect_from i n w rs c)
    collect_from-IsUnderway i (suc n) (sending r) [] c e at_i u = record {
      open_jobs = u.open_jobs;
      live = u.live;
      staffed = worker-set i idle c.pool.workers (λ f. cc f) u.staffed;
      counted = λ test. omega (
        arith,
        u.counted test,
        workers-set processor test i idle (sending r) c.pool.workers at_i (λ f. cc f),
        tally-append processor test c.collected r,
      );
      remaining = omega (arith, e, u.remaining, length-snoc c.collected r);
    }
    collect_from-IsUnderway i zero w rs c e at_i u = u
    collect_from-IsUnderway i (suc n) idle rs c e at_i u = u
    collect_from-IsUnderway i (suc n) exited rs c e at_i u = u
    collect_from-IsUnderway i (suc n) (processing k) rs c e at_i u = u
    collect_from-IsUnderway i (suc n) (sending r) (x ∷ xs) c e at_i u = u
