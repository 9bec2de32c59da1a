-- ===== src/Scheduler/Lcfs/Lifo.antt =====
-- The list of `scheduler_LCFS_t` is a stack, but for the running job.
use cmpsc_473_operating_syst.Common.{
  ℕ, ◌+◌, ◌^◌, ◌≤◌, ◌<◌, ◌≡◌, refl, ap, false, some, List, [], ◌∷◌, ◌++◌, arith, ◌==◌,
}
use cmpsc_473_operating_syst.Heap.{null}
use cmpsc_473_operating_syst.Job.{Job}
use cmpsc_473_operating_syst.Outcome.{Succeeds, succeeds, Succeeds-bind}
use cmpsc_473_operating_syst.Scheduler.{Scheduler, Resources, add_time}
use cmpsc_473_operating_syst.Scheduler.Completion.{
  Ready, completion_at, scheduler_schedule_next_completion-Scheduled,
}
use cmpsc_473_operating_syst.Scheduler.Lcfs.{remove_job, complete_job}
use cmpsc_473_operating_syst.Simulator.Queue.{Scheduled}

-- None of `jobs` is `job`.
abbrev pub Lacks : Job → List Job → Type 0
Lacks job [] = Unit {0}
Lacks job (other ∷ jobs) = ((other.ref == job.ref) ≡ false) × Lacks job jobs

pub remove_job-append :
    (job : Job) (ys zs : List Job) → Lacks job ys → remove_job job (ys ++ job ∷ zs) ≡ ys ++ zs
unfolding remove_job
remove_job-append job [] zs l = ground arith
remove_job-append job (y ∷ ys) zs (ne, l) = rw ne (ap (◌∷◌ y) (remove_job-append job ys zs l))

-- Where the jobs `next ∷ ys`, the latest first, came while `job` ran, and the jobs `zs` wait from
-- before, the completion of `job` returns it and makes the latest one, `next`, the running job. If there
-- is memory for the event, that gets a completion event after its job time; otherwise the event queue
-- is left alone. The other jobs stay in their order.
pub complete_job-latest :
    (m : Resources) (s : Scheduler) (next job : Job) (ys zs : List Job) (now : ℕ)
    → Ready m s
    → s.completion_event ≡ null
    → s.sim.sim_time ≤ now
    → now + next.job_time < 2 ^ 64
    → Lacks job (next ∷ ys)
    → Succeeds
        (λ (done, info, s').
          (done ≡ some job)
          × (info ≡ record { job_queue = next ∷ ys ++ zs; current_job = some next })
          × Scheduled m.events s.sim
              (completion_at s (now + next.job_time))
              (s'.completion_event, s'.sim))
        (complete_job m
          (record { job_queue = next ∷ ys ++ job ∷ zs; current_job = some job })
          s
          now)
unfolding complete_job
complete_job-latest m s next job ys zs now r idle late small (ne, lacks) =
    let time : add_time now next.job_time ≡ now + next.job_time = omega arith in
    rw (ne, remove_job-append job ys zs lacks, time)
      (Succeeds-bind
        ((scheduler_schedule_next_completion-Scheduled m s (now + next.job_time) r (omega arith)).0
          (ground arith))
        λ (done, s') h. succeeds (refl, refl, h.0))
