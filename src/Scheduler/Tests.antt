-- ===== src/Scheduler/Tests.antt =====
-- The theorems on the policies at concrete schedulers.
use cmpsc_473_operating_syst.Common.{
  ℕ, ◌+◌, ◌≡◌, refl, true, false, some, List, [], ◌∷◌, arith, ◌==◌,
}
use cmpsc_473_operating_syst.Heap.{null}
use cmpsc_473_operating_syst.Heap.Fresh.{above, has-above}
use cmpsc_473_operating_syst.Job.{Job}
use cmpsc_473_operating_syst.Outcome.{Succeeds, ok}
use cmpsc_473_operating_syst.Scheduler.{Scheduler, Resources, scheduler_schedule_next_completion}
use cmpsc_473_operating_syst.Scheduler.Completion.{
  Ready, completion_at, scheduler_schedule_next_completion-Scheduled,
}
use cmpsc_473_operating_syst.Scheduler.Fcfs
use cmpsc_473_operating_syst.Scheduler.Fcfs.Fifo.{complete_job-next}
use cmpsc_473_operating_syst.Scheduler.Lcfs
use cmpsc_473_operating_syst.Scheduler.Lcfs.Lifo.{complete_job-latest}
use cmpsc_473_operating_syst.Scheduler.Sjf.{shortest}
use cmpsc_473_operating_syst.Scheduler.Sjf.Shortest.{IsShortest, shortest-IsShortest}
use cmpsc_473_operating_syst.Scheduler.Mlfq
use cmpsc_473_operating_syst.Scheduler.Mlfq.{MlfqJob, take_first, append_at}
use cmpsc_473_operating_syst.Scheduler.Mlfq.Levels.{Taken, take_first-Taken}
use cmpsc_473_operating_syst.Scheduler.Mlfq.Handlers.{IsOrdered, Completed, complete_job-Completed}
use cmpsc_473_operating_syst.Simulator.Queue.{IsValid, has_memory, Scheduled}

resources : Resources
resources = record {
  events = record { event = λ n. true; node = λ n xs. above xs };
  job = λ n. true;
  job_node = λ n r. true;
  wrapper = λ n. true;
}

-- A simulator at time 4 with nothing queued.
abbrev idle : Scheduler
idle = record { sim = record { queue = []; sim_time = 4; id = 3 }; completion_event = null }

idle-Ready : Ready resources idle
unfolding resources
idle-Ready = record {
  fresh = λ n xs. has-above xs;
  valid = record { sorted = tt; future = tt; older = tt; distinct = tt };
  room = omega arith;
}

-- A simulator at time 4 whose node 1 holds a completion at time 9.
abbrev busy : Scheduler
busy = record {
  sim = record { queue = (1, completion_at idle 9) ∷ []; sim_time = 4; id = 4 };
  completion_event = 1;
}

busy-IsValid : IsValid busy.sim
busy-IsValid = record {
  sorted = (tt, tt);
  future = (omega arith, tt);
  older = (omega arith, tt);
  distinct = (refl, refl, tt);
}

abbrev job : ℕ → ℕ → Job
job ref size = record {
  ref = ref;
  arrival_time = 0;
  job_time = size;
  remaining_time = size;
  id = ref + 1;
}

scheduler_schedule_next_completion-Scheduled_example :
    ((idle.completion_event == null) ≡ true
      → Succeeds
          (λ (made, s').
            Scheduled resources.events idle.sim (completion_at idle 9) (s'.completion_event, s'.sim)
            × (made ≡ has_memory resources.events idle.sim))
          (scheduler_schedule_next_completion resources idle 9))
    × ((idle.completion_event == null) ≡ false
        → scheduler_schedule_next_completion resources idle 9 ≡ ok (false, idle))
scheduler_schedule_next_completion-Scheduled_example =
    scheduler_schedule_next_completion-Scheduled resources idle 9 idle-Ready (omega arith)

complete_job-next_example :
    Succeeds
      (λ (finished, info, s').
        (finished ≡ some (job 0 3))
        × (info.job_queue ≡ job 2 7 ∷ job 1 5 ∷ [])
        × Scheduled resources.events idle.sim (completion_at idle 9) (s'.completion_event, s'.sim))
      (Fcfs.complete_job resources (record { job_queue = job 2 7 ∷ job 1 5 ∷ job 0 3 ∷ [] }) idle 4)
complete_job-next_example =
    complete_job-next resources idle (job 2 7 ∷ []) (job 1 5) (job 0 3) 4 idle-Ready refl
      (omega arith) (omega arith)

complete_job-latest_example :
    Succeeds
      (λ (finished, info, s').
        (finished ≡ some (job 0 3))
        × (info ≡ record { job_queue = job 2 5 ∷ job 1 7 ∷ []; current_job = some (job 2 5) })
        × Scheduled resources.events idle.sim (completion_at idle 9) (s'.completion_event, s'.sim))
      (Lcfs.complete_job resources
        (record { job_queue = job 2 5 ∷ job 1 7 ∷ job 0 3 ∷ []; current_job = some (job 0 3) })
        idle
        4)
complete_job-latest_example =
    complete_job-latest resources idle (job 2 5) (job 0 3) (job 1 7 ∷ []) [] 4 idle-Ready refl
      (omega arith) (omega arith) (refl, (refl, tt))

abbrev jobs : List Job
jobs = job 0 4 ∷ job 1 2 ∷ job 2 2 ∷ []

shortest-IsShortest_example : IsShortest jobs (shortest jobs)
shortest-IsShortest_example =
    shortest-IsShortest jobs
      ((omega arith, omega arith), ((omega arith, omega arith), ((omega arith, omega arith), tt)))

abbrev at_level : ℕ → Job → MlfqJob
at_level level j = record { job = j; level = level }

abbrev queues : List (List MlfqJob)
queues =
    []
    ∷ (at_level 1 (job 1 2) ∷ at_level 1 (job 2 2) ∷ [])
    ∷ []
    ∷ (at_level 3 (job 3 1) ∷ [])
    ∷ []
    ∷ []
    ∷ []
    ∷ []
    ∷ []
    ∷ []
    ∷ []

take_first-Taken_example : Taken 0 queues (take_first queues)
take_first-Taken_example =
    take_first-Taken 0 queues
      (tt, ((refl, (refl, tt)), (tt, ((refl, tt), (tt, (tt, (tt, (tt, (tt, (tt, tt))))))))))

abbrev feedback : Mlfq.Info
feedback = record { queues = queues; running = some (at_level 2 (job 0 5)); last_time = 3 }

feedback-IsOrdered : IsOrdered feedback
feedback-IsOrdered = record {
  levels = (tt, ((refl, (refl, tt)), (tt, ((refl, tt), (tt, (tt, (tt, (tt, (tt, (tt, tt))))))))));
  ten = refl;
  running_level = omega arith;
  busy = λ e. cc;
}

complete_job-Completed_example :
    Succeeds (Completed resources idle 4 feedback) (Mlfq.complete_job resources feedback idle 4)
unfolding resources
complete_job-Completed_example =
    complete_job-Completed resources idle feedback 4 (λ ref remaining. refl) feedback-IsOrdered
      idle-Ready refl (omega arith) (omega arith)
