-- ===== src/Scheduler.antt =====
-- simulatorlab-FreezeKickerz/scheduler.h and scheduler.c: what the policies call. A policy gets the
-- scheduler with its simulator, and returns both.
pub mod Completion
pub mod Fcfs
pub mod Lcfs
pub mod Mlfq
pub mod Policy
pub mod Sjf
mod Tests
use cmpsc_473_operating_syst.Common.{
  ℕ, ◌+◌, ◌%◌, ◌^◌, Bool, true, false, List, ◌∷◌, ◌==◌, if◌then◌else◌,
}
use cmpsc_473_operating_syst.Heap.{Ptr, null}
use cmpsc_473_operating_syst.Job.{Job}
use cmpsc_473_operating_syst.Outcome.{Outcome, ok, ◌>>=◌}
use cmpsc_473_operating_syst.Simulator.{
  Simulator, Memory, event_completion, simulator_schedule, simulator_remove_event,
}

-- The two callbacks that are ever queued: `schedulerCompleteJob` with the scheduler for its data, and
-- `traceArrivalCallback` with the trace.
pub data Callback : Type 0 where
  complete_job arrive : Callback

-- The fields of `scheduler_t` that the functions below use.
pub record Scheduler : Type 0 where
  pub sim : Simulator Callback
  pub completion_event : Ptr

-- What `malloc` answers: for events and their nodes, for the job of a number, for the list node that
-- takes the job of a number with some time remaining, and for the wrapper of a job.
pub record Resources : Type 0 where
  pub events : Memory Callback
  pub job : ℕ → Bool
  pub job_node : ℕ → ℕ → Bool
  pub wrapper : ℕ → Bool

-- `currentTime + jobTime` on `uint64_t`
abbrev pub add_time : ℕ → ℕ → ℕ
add_time a b = (a + b) % 2 ^ 64

-- `list_insert` into a list of jobs with no comparison: at the head, unless `malloc` fails.
abbrev pub push_job : Resources → Job → List Job → List Job
push_job m job jobs = if m.job_node job.ref job.remaining_time then job ∷ jobs else jobs

unfoldable pub scheduler_schedule_next_completion :
    Resources → Scheduler → ℕ → Outcome (Bool × Scheduler)
scheduler_schedule_next_completion m s timestamp =
    if s.completion_event == null
    then (do
      (p, sim) ← simulator_schedule m.events s.sim timestamp event_completion complete_job
      ok ((if p == null then false else true), record s { sim = sim; completion_event = p }))
    else ok (false, s)

unfoldable pub scheduler_cancel_next_completion : Scheduler → Outcome (Bool × Scheduler)
scheduler_cancel_next_completion s = if s.completion_event == null then ok (false, s) else (do
  sim ← simulator_remove_event s.sim s.completion_event
  ok (true, record s { sim = sim; completion_event = null }))
