-- ===== src/Server/Collecting/Staff.antt =====
-- internal/server/worker.go: the steps of the workers while somebody waits for their results.
use geo_spatial_dispatch_ser.Prelude.{
  ℕ, ◌≡◌, ap, List, [], ◌∷◌, arith, if-holds, ltb, Bool-cases, inl, inr,
}
use geo_spatial_dispatch_ser.Realtime.Clients.{length}
use geo_spatial_dispatch_ser.Server.Workers.{
  Job, JobResult, Worker, idle, exited, processing, sending, worker_at, take_job, finish_job,
  put_result, leave_pool,
}
use geo_spatial_dispatch_ser.Server.Conserving.{tally_jobs, tally-append, workers-set}
use geo_spatial_dispatch_ser.Server.Calls.{Call}
use geo_spatial_dispatch_ser.Server.Collecting.{IsUnderway, worker-set}

module _ {P O : Type 0} (processor : Job P → JobResult O) where
  module _ (all : List (Job P)) where
    pub take-IsUnderway :
        (i : ℕ) (w : Worker P O) (js : List (Job P)) (c : Call P O)
        → worker_at i c.pool.workers ≡ w
        → c.pool.jobs ≡ js
        → IsUnderway processor all c
        → IsUnderway processor all (record c { pool = take_job i w js c.pool })
    take-IsUnderway i idle (j ∷ js) c at_i e u = record {
      open_jobs = u.open_jobs;
      live = u.live;
      staffed = worker-set i (processing j) c.pool.workers (λ f. cc f) u.staffed;
      counted = λ test. omega (
        arith,
        u.counted test,
        ap (tally_jobs processor test) e,
        workers-set processor test i (processing j) idle c.pool.workers at_i (λ f. cc f),
      );
      remaining = u.remaining;
    }
    take-IsUnderway i idle [] c at_i e u =
        if-holds (λ p. IsUnderway processor all (record c { pool = p })) c.pool.jobs_closed _ c.pool
          (λ h. absurd (cc (h, u.open_jobs))) (λ _. u)
    take-IsUnderway i exited js c at_i e u = u
    take-IsUnderway i (processing k) js c at_i e u = u
    take-IsUnderway i (sending r) js c at_i e u = u

    pub finish-IsUnderway :
        (i : ℕ) (w : Worker P O) (c : Call P O)
        → worker_at i c.pool.workers ≡ w
        → IsUnderway processor all c
        → IsUnderway processor all (record c { pool = finish_job processor i w c.pool })
    finish-IsUnderway i (processing j) c at_i u = record {
      open_jobs = u.open_jobs;
      live = u.live;
      staffed = worker-set i (sending (processor j)) c.pool.workers (λ f. cc f) u.staffed;
      counted = λ test. omega (
        arith,
        u.counted test,
        workers-set processor test i (sending (processor j)) (processing j) c.pool.workers at_i
            (λ f. cc f),
      );
      remaining = u.remaining;
    }
    finish-IsUnderway i idle c at_i u = u
    finish-IsUnderway i exited c at_i u = u
    finish-IsUnderway i (sending r) c at_i u = u

    pub put-IsUnderway :
        (i : ℕ) (w : Worker P O) (c : Call P O)
        → worker_at i c.pool.workers ≡ w
        → IsUnderway processor all c
        → IsUnderway processor all (record c { pool = put_result i w c.pool })
    put-IsUnderway i (sending r) c at_i u =
        elim (Bool-cases (ltb (length c.pool.results) c.pool.buffer_size)) [
          | inl room ↦ rw room (record {
            open_jobs = u.open_jobs;
            live = u.live;
            staffed = worker-set i idle c.pool.workers (λ f. cc f) u.staffed;
            counted = λ test. omega (
              arith,
              u.counted test,
              workers-set processor test i idle (sending r) c.pool.workers at_i (λ f. cc f),
              tally-append processor test c.pool.results r,
            );
            remaining = u.remaining;
          })
          | inr full ↦ rw full u
        ]
    put-IsUnderway i idle c at_i u = u
    put-IsUnderway i exited c at_i u = u
    put-IsUnderway i (processing k) c at_i u = u

    pub leave-IsUnderway :
        (i : ℕ) (w : Worker P O) (c : Call P O)
        → IsUnderway processor all c
        → IsUnderway processor all (record c { pool = leave_pool i w c.pool })
    leave-IsUnderway i idle c u =
        if-holds (λ p. IsUnderway processor all (record c { pool = p })) c.pool.cancelled _ c.pool
          (λ h. absurd (cc (h, u.live))) (λ _. u)
    leave-IsUnderway i (sending r) c u =
        if-holds (λ p. IsUnderway processor all (record c { pool = p })) c.pool.cancelled _ c.pool
          (λ h. absurd (cc (h, u.live))) (λ _. u)
    leave-IsUnderway i exited c u = u
    leave-IsUnderway i (processing k) c u = u
