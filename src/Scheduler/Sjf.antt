-- ===== src/Scheduler/Sjf.antt =====
-- simulatorlab-FreezeKickerz/schedulerSJF.c: shortest job first, without preemption.
pub mod Shortest
use cmpsc_473_operating_syst.Common.{
  ℕ, ◌-◌, ◌^◌, Bool, true, false, Option, none, some, List, [], ◌∷◌, ◌==◌, ltb, ◌&&◌, ◌||◌,
  if◌then◌else◌,
}
use cmpsc_473_operating_syst.Job.{Job, job_get_job_time, job_get_id}
use cmpsc_473_operating_syst.Outcome.{Outcome, ok, ◌>>=◌}
use cmpsc_473_operating_syst.Scheduler.{
  Scheduler, Resources, add_time, push_job, scheduler_schedule_next_completion,
}
use cmpsc_473_operating_syst.Scheduler.Lcfs.{remove_job}

-- `scheduler_SJF_t`
pub record Info : Type 0 where
  pub job_queue : List Job
  pub current_job : Option Job

unfoldable pub create : (memory list_memory : Bool) → Option Info
create memory list_memory =
    if memory
    then (if list_memory then some (record { job_queue = []; current_job = none }) else none)
    else none

unfoldable pub schedule_job : Resources → Info → Scheduler → Job → ℕ → Outcome (Info × Scheduler)
unfolding job_get_job_time
schedule_job m info s job now =
    let info' : Info = record info { job_queue = push_job m job info.job_queue } in
    elim info.current_job [
      | none ↦ do
        (done, s') ← scheduler_schedule_next_completion m s (add_time now (job_get_job_time job))
        ok (record info' { current_job = some job }, s')
      | some running ↦ ok (info', s)
    ]

-- The variables of the scan.
pub record Best : Type 0 where
  pub best_time : ℕ
  pub best_id : ℕ
  pub next_job : Option Job

abbrev pub uint64_max : ℕ
uint64_max = 2 ^ 64 - 1

unfoldable pub consider : Best → Job → Best
unfolding job_get_job_time job_get_id
consider b candidate =
    let t = job_get_job_time candidate in
    let id = job_get_id candidate in
    if ltb t b.best_time || ((t == b.best_time) && ltb id b.best_id)
    then record { best_time = t; best_id = id; next_job = some candidate }
    else b

unfoldable pub scan : Best → List Job → Best
unfolding consider
scan b [] = b
scan b (candidate ∷ jobs) = scan (consider b candidate) jobs

unfoldable pub shortest : List Job → Option Job
unfolding scan
shortest jobs =
    (scan (record { best_time = uint64_max; best_id = uint64_max; next_job = none }) jobs).next_job

-- `list_find` finds no node for a NULL job, and `list_remove` does nothing for a NULL node.
unfoldable pub remove_finished : Option Job → List Job → List Job
unfolding remove_job
remove_finished none jobs = jobs
remove_finished (some job) jobs = remove_job job jobs

unfoldable pub complete_job :
    Resources → Info → Scheduler → ℕ → Outcome (Option Job × Info × Scheduler)
unfolding remove_finished shortest job_get_job_time
complete_job m info s now =
    let jobs = remove_finished info.current_job info.job_queue in
    elim (shortest jobs) [
      | none ↦ ok (info.current_job, record { job_queue = jobs; current_job = none }, s)
      | some next ↦ do
        (done, s') ← scheduler_schedule_next_completion m s (add_time now (job_get_job_time next))
        ok (info.current_job, record { job_queue = jobs; current_job = some next }, s')
    ]
