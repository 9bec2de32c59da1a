-- ===== src/Scheduler/Fcfs/Fifo.antt =====
-- The list of `scheduler_FCFS_t` is a queue: jobs enter at its head and leave at its tail.
use cmpsc_473_operating_syst.Common.{
  ℕ, ◌+◌, ◌^◌, ◌≤◌, ◌<◌, ◌≡◌, refl, ap, true, false, none, some, List, [], ◌∷◌, ◌++◌, arith, ltb,
  ◌==◌, length, length-append,
}
use cmpsc_473_operating_syst.Heap.{null}
use cmpsc_473_operating_syst.Job.{Job}
use cmpsc_473_operating_syst.Outcome.{ok, Succeeds, succeeds, Succeeds-bind}
use cmpsc_473_operating_syst.Scheduler.{Scheduler, Resources, add_time}
use cmpsc_473_operating_syst.Scheduler.Completion.{
  Ready, completion_at, scheduler_schedule_next_completion-Scheduled,
}
use cmpsc_473_operating_syst.Scheduler.Fcfs.{tail_job, remove_tail, start, complete_job}
use cmpsc_473_operating_syst.Simulator.Queue.{Scheduled}

pub tail_job-snoc : (jobs : List Job) (job : Job) → tail_job (jobs ++ job ∷ []) ≡ some job
unfolding tail_job
tail_job-snoc [] job = refl
tail_job-snoc (a ∷ []) job = refl
tail_job-snoc (a ∷ b ∷ jobs) job = tail_job-snoc (b ∷ jobs) job

pub remove_tail-snoc : (jobs : List Job) (job : Job) → remove_tail (jobs ++ job ∷ []) ≡ jobs
unfolding remove_tail
remove_tail-snoc [] job = refl
remove_tail-snoc (a ∷ []) job = refl
remove_tail-snoc (a ∷ b ∷ jobs) job = ap (◌∷◌ a) (remove_tail-snoc (b ∷ jobs) job)

start-Scheduled :
    (m : Resources) (job : Job) (s : Scheduler) (now : ℕ)
    → Ready m s
    → s.completion_event ≡ null
    → s.sim.sim_time ≤ now
    → now + job.remaining_time < 2 ^ 64
    → Succeeds
        (λ s'.
          Scheduled m.events s.sim
            (completion_at s (now + job.remaining_time))
            (s'.completion_event, s'.sim))
        (start m (some job) s now)
unfolding start
start-Scheduled m job s now r idle late small =
    let time : add_time now job.remaining_time ≡ now + job.remaining_time = omega arith in
    rw time (
      Succeeds-bind
        ((scheduler_schedule_next_completion-Scheduled m s (now + job.remaining_time) r
            (omega arith)).0
          (ground arith))
        λ (done, s') h. succeeds h.0)

-- With no completion pending, the completion of the oldest job `job` returns it and leaves the younger
-- jobs in their order; if there is memory for the event, the oldest of those, `next`, gets a completion
-- event after its remaining time, and otherwise the event queue is left alone.
pub complete_job-next :
    (m : Resources) (s : Scheduler) (jobs : List Job) (next job : Job) (now : ℕ)
    → Ready m s
    → s.completion_event ≡ null
    → s.sim.sim_time ≤ now
    → now + next.remaining_time < 2 ^ 64
    → Succeeds
        (λ (done, info, s').
          (done ≡ some job)
          × (info.job_queue ≡ jobs ++ next ∷ [])
          × Scheduled m.events s.sim
              (completion_at s (now + next.remaining_time))
              (s'.completion_event, s'.sim))
        (complete_job m (record { job_queue = (jobs ++ next ∷ []) ++ job ∷ [] }) s now)
unfolding complete_job
complete_job-next m s jobs next job now r idle late small =
    let some_job : (length ((jobs ++ next ∷ []) ++ job ∷ []) == 0) ≡ false =
      ground (arith, length-append (jobs ++ next ∷ []) (job ∷ [])) in
    let more : ltb 0 (length (jobs ++ next ∷ [])) ≡ true =
      ground (arith, length-append jobs (next ∷ [])) in
    rw
      (
        some_job,
        remove_tail-snoc (jobs ++ next ∷ []) job,
        more,
        tail_job-snoc jobs next,
        tail_job-snoc (jobs ++ next ∷ []) job,
      )
      (Succeeds-bind (start-Scheduled m next s now r idle late small)
        λ s' h. succeeds (refl, refl, h))

-- The completion of the only job returns it and leaves the queue empty; with no job, nothing happens.
pub complete_job-last :
    (m : Resources) (s : Scheduler) (job : Job) (now : ℕ)
    → (complete_job m (record { job_queue = job ∷ [] }) s now
        ≡ ok (some job, record { job_queue = [] }, s))
      × (complete_job m (record { job_queue = [] }) s now ≡ ok (none, record { job_queue = [] }, s))
unfolding complete_job
complete_job-last m s job now = (refl, refl)
