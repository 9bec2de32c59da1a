-- ===== src/Scheduler/Lcfs.antt =====
-- simulatorlab-FreezeKickerz/schedulerLCFS.c: last come, first served, without preemption.
pub mod Lifo
use cmpsc_473_operating_syst.Common.{
  ℕ, Bool, true, false, Option, none, some, List, [], ◌∷◌, ◌==◌, if◌then◌else◌, length,
}
use cmpsc_473_operating_syst.Job.{Job, job_get_job_time}
use cmpsc_473_operating_syst.Outcome.{Outcome, ok, ◌>>=◌}
use cmpsc_473_operating_syst.Scheduler.{
  Scheduler, Resources, add_time, push_job, scheduler_schedule_next_completion,
}

-- `scheduler_LCFS_t`
pub record Info : Type 0 where
  pub job_queue : List Job
  pub current_job : Option Job

unfoldable pub create : (memory list_memory : Bool) → Option Info
create memory list_memory =
    if memory
    then (if list_memory then some (record { job_queue = []; current_job = none }) else none)
    else none

-- `list_remove(list, list_find(list, job))`: the first node with the job, if there is one.
unfoldable pub remove_job : Job → List Job → List Job
remove_job job [] = []
remove_job job (other ∷ jobs) = if other.ref == job.ref then jobs else other ∷ remove_job job jobs

unfoldable pub schedule_job : Resources → Info → Scheduler → Job → ℕ → Outcome (Info × Scheduler)
unfolding job_get_job_time
schedule_job m info s job now =
    let info' : Info = record info { job_queue = push_job m job info.job_queue } in
    if length info'.job_queue == 1
    then (do
      (done, s') ← scheduler_schedule_next_completion m s (add_time now (job_get_job_time job))
      ok (record info' { current_job = some job }, s'))
    else ok (info', s)

-- The job at the head of the list runs next, if there is one.
unfoldable pub run_next :
    Resources → Job → List Job → Scheduler → ℕ → Outcome (Option Job × Info × Scheduler)
unfolding job_get_job_time
run_next m finished [] s now = ok (some finished, record { job_queue = []; current_job = none }, s)
run_next m finished (next ∷ jobs) s now = do
  (done, s') ← scheduler_schedule_next_completion m s (add_time now (job_get_job_time next))
  ok (some finished, record { job_queue = next ∷ jobs; current_job = some next }, s')

-- The handler is never called with a NULL `schedulerInfo`.
unfoldable pub complete_job :
    Resources → Info → Scheduler → ℕ → Outcome (Option Job × Info × Scheduler)
unfolding remove_job run_next
complete_job m info s now = elim info.current_job [
  | none ↦ ok (none, info, s)
  | some finished ↦ run_next m finished (remove_job finished info.job_queue) s now
]
