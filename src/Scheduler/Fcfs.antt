-- ===== src/Scheduler/Fcfs.antt =====
-- simulatorlab-FreezeKickerz/schedulerFCFS.c: first come, first served. The head of the list is the
-- job that came last, and its tail the one that runs.
pub mod Fifo
use cmpsc_473_operating_syst.Common.{
  ℕ, Bool, true, false, Option, none, some, List, [], ◌∷◌, ◌==◌, ltb, if◌then◌else◌, length,
}
use cmpsc_473_operating_syst.Job.{Job, job_get_job_time, job_get_remaining_time}
use cmpsc_473_operating_syst.Outcome.{Outcome, ok, fault, ◌>>=◌}
use cmpsc_473_operating_syst.Scheduler.{
  Scheduler, Resources, add_time, push_job, scheduler_schedule_next_completion,
}

-- `scheduler_FCFS_t`
pub record Info : Type 0 where
  pub job_queue : List Job

-- The flags say whether `malloc` gives the structure and the list.
unfoldable pub create : (memory list_memory : Bool) → Option Info
create memory list_memory =
    if memory then (if list_memory then some (record { job_queue = [] }) else none) else none

-- `list_data(list_tail(list))`
unfoldable pub tail_job : List Job → Option Job
tail_job [] = none
tail_job (job ∷ []) = some job
tail_job (job ∷ next ∷ jobs) = tail_job (next ∷ jobs)

-- `list_remove(list, list_tail(list))`
unfoldable pub remove_tail : List Job → List Job
remove_tail [] = []
remove_tail (job ∷ []) = []
remove_tail (job ∷ next ∷ jobs) = job ∷ remove_tail (next ∷ jobs)

unfoldable pub schedule_job : Resources → Info → Scheduler → Job → ℕ → Outcome (Info × Scheduler)
unfolding job_get_job_time
schedule_job m info s job now =
    let info' : Info = record { job_queue = push_job m job info.job_queue } in
    if length info'.job_queue == 1
    then (do
      (done, s') ← scheduler_schedule_next_completion m s (add_time now (job_get_job_time job))
      ok (info', s'))
    else ok (info', s)

-- A completion for `job` from now on; NULL would be a fault.
unfoldable pub start : Resources → Option Job → Scheduler → ℕ → Outcome Scheduler
unfolding job_get_remaining_time
start m none s now = fault
start m (some job) s now = do
  (done, s') ← scheduler_schedule_next_completion m s (add_time now (job_get_remaining_time job))
  ok s'

unfoldable pub complete_job :
    Resources → Info → Scheduler → ℕ → Outcome (Option Job × Info × Scheduler)
unfolding tail_job remove_tail start
complete_job m info s now =
    if length info.job_queue == 0
    then ok (none, info, s)
    else (let info' : Info = record { job_queue = remove_tail info.job_queue } in
        if ltb 0 (length info'.job_queue)
        then (do
          s' ← start m (tail_job info'.job_queue) s now
          ok (tail_job info.job_queue, info', s'))
        else ok (tail_job info.job_queue, info', s))
