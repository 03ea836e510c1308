-- ===== src/Server/Collecting.antt =====
-- internal/server/worker.go: what `SubmitAndWait` collects.
pub mod Callers
pub mod Staff
pub mod Runs
use geo_spatial_dispatch_ser.Prelude.{
  ℕ, zero, suc, ◌+◌, ◌≡◌, ◌≢◌, refl, ap, Bool, false, not, List, [], ◌∷◌, ◌++◌, arith, if-holds,
  ltb, Bool-cases, inl, inr,
}
use geo_spatial_dispatch_ser.Realtime.Clients.{length}
use geo_spatial_dispatch_ser.Server.Workers.{
  Job, JobResult, Worker, idle, exited, processing, sending, worker_at, set_worker, submit,
  take_job, finish_job, put_result, leave_pool, step_pool, new_worker_pool, start,
}
use geo_spatial_dispatch_ser.Server.Conserving.{
  tally, tally_jobs, tally_workers, tally-append, jobs-append, workers-replicate, workers-set,
}
use geo_spatial_dispatch_ser.Server.Calls.{
  Call, CallEvent, sending_next, skipping_next, handing_next, collecting, collecting_from,
  taking_job, finishing_job, putting_result, leaving_pool, calling, has_room, send_next, hand_next,
  skip_next, collect, collect_from, step_call, run_call,
}

module _ {P O : Type 0} (processor : Job P → JobResult O) where
  -- All places where a job of the call or its result can be.
  abbrev pub call_tally : (JobResult O → Bool) → Call P O → ℕ
  call_tally test c =
      tally_jobs processor test c.unsent
      + tally_jobs processor test c.pool.jobs
      + tally_workers processor test c.pool.workers
      + tally processor test c.pool.results
      + tally processor test c.collected

  -- A call for some jobs, in a pool that takes jobs and whose first worker has not returned.
  pub record IsUnderway (jobs : List (Job P)) (c : Call P O) : Type 0 where
    pub open_jobs : c.pool.jobs_closed ≡ false
    pub live : c.pool.cancelled ≡ false
    pub staffed : worker_at 0 c.pool.workers ≢ exited
    pub counted : (test : JobResult O → Bool) → call_tally test c ≡ tally_jobs processor test jobs
    pub remaining : c.wanted + length c.collected ≡ length jobs

pub worker-set :
    {P O : Type 0} (i : ℕ) (v : Worker P O) (ws : List (Worker P O))
    → v ≢ exited
    → worker_at 0 ws ≢ exited
    → worker_at 0 (set_worker i v ws) ≢ exited
worker-set i v [] n h = h
worker-set zero v (w ∷ ws) n h = n
worker-set (suc i) v (w ∷ ws) n h = h

pub length-snoc :
    {O : Type 0} (rs : List (JobResult O)) (r : JobResult O)
    → length (rs ++ (r ∷ [])) ≡ suc (length rs)
length-snoc [] r = refl
length-snoc (x ∷ rs) r = ap suc (length-snoc rs r)
