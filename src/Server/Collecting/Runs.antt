-- ===== src/Server/Collecting/Runs.antt =====
-- internal/server/worker.go: any run of a call and of its workers.
use geo_spatial_dispatch_ser.Prelude.{ℕ, suc, refl, List, [], ◌∷◌, arith}
use geo_spatial_dispatch_ser.Server.Workers.{Job, JobResult, step_pool, new_worker_pool, start}
use geo_spatial_dispatch_ser.Server.Conserving.{workers-replicate}
use geo_spatial_dispatch_ser.Server.Calls.{
  Call, CallEvent, sending_next, skipping_next, handing_next, collecting, collecting_from,
  taking_job, finishing_job, putting_result, leaving_pool, calling, step_call, run_call,
}
use geo_spatial_dispatch_ser.Server.Collecting.{IsUnderway}
use geo_spatial_dispatch_ser.Server.Collecting.Callers.{
  send-IsUnderway, hand-IsUnderway, skip-IsUnderway, collect-IsUnderway, collect_from-IsUnderway,
}
use geo_spatial_dispatch_ser.Server.Collecting.Staff.{
  take-IsUnderway, finish-IsUnderway, put-IsUnderway, leave-IsUnderway,
}

module _ {P O : Type 0} (processor : Job P → JobResult O) where
  module _ (all : List (Job P)) where
    pub step-IsUnderway :
        (e : CallEvent) (c : Call P O)
        → IsUnderway processor all c
        → IsUnderway processor all (step_call processor e c)
    unfolding step_call step_pool
    step-IsUnderway sending_next c u = send-IsUnderway processor all c.unsent c refl u
    step-IsUnderway skipping_next c u = skip-IsUnderway processor all c.unsent c u
    step-IsUnderway (handing_next i) c u =
        hand-IsUnderway processor all i c.unsent _ c.pool.jobs c refl refl u
    step-IsUnderway collecting c u =
        collect-IsUnderway processor all c.wanted c.pool.results c refl refl u
    step-IsUnderway (collecting_from i) c u =
        collect_from-IsUnderway processor all i c.wanted _ c.pool.results c refl refl u
    step-IsUnderway (taking_job i) c u = take-IsUnderway processor all i _ c.pool.jobs c refl refl u
    step-IsUnderway (finishing_job i) c u = finish-IsUnderway processor all i _ c refl u
    step-IsUnderway (putting_result i) c u = put-IsUnderway processor all i _ c refl u
    step-IsUnderway (leaving_pool i) c u = leave-IsUnderway processor all i _ c u

    pub run-IsUnderway :
        (events : List CallEvent) (c : Call P O)
        → IsUnderway processor all c
        → IsUnderway processor all (run_call processor events c)
    unfolding run_call
    run-IsUnderway [] c u = u
    run-IsUnderway (e ∷ events) c u =
        run-IsUnderway events (step_call processor e c) (step-IsUnderway e c u)

pub calling-IsUnderway :
    {P O : Type 0} (processor : Job P → JobResult O) (jobs : List (Job P)) (others buffer_size : ℕ)
    → IsUnderway processor jobs (calling jobs (start (new_worker_pool (suc others) buffer_size)))
unfolding calling start new_worker_pool
calling-IsUnderway processor jobs others buffer_size = record {
  open_jobs = refl;
  live = refl;
  staffed = λ e. cc e;
  counted = λ test. omega (arith, workers-replicate processor test others);
  remaining = omega arith;
}
