-- ===== src/Scheduler/Mlfq.antt =====
-- simulatorlab-FreezeKickerz/schedulerMLFQ.c: ten feedback queues with a time slice of one unit. The
-- lists of the queues are made with `always_less`, so `list_insert` appends to them.
pub mod Handlers
pub mod Levels
use cmpsc_473_operating_syst.Common.{
  ℕ, zero, suc, ◌+◌, ◌-◌, ◌%◌, ◌^◌, Bool, true, false, Option, none, some, List, [], ◌∷◌, ◌++◌, ltb,
  leb, ◌&&◌, if◌then◌else◌,
}
use cmpsc_473_operating_syst.Job.{Job, job_get_remaining_time, job_set_remaining_time}
use cmpsc_473_operating_syst.Outcome.{Outcome, ok, fault, ◌>>=◌}
use cmpsc_473_operating_syst.Scheduler.{
  Scheduler, Resources, add_time, scheduler_schedule_next_completion,
  scheduler_cancel_next_completion,
}

abbrev pub max_mlfq_levels : ℕ
max_mlfq_levels = 10

-- `mlfq_job_t`
pub record MlfqJob : Type 0 where
  pub job : Job
  pub level : ℕ

-- `scheduler_MLFQ_t`; the queue of level 0 stands first.
pub record Info : Type 0 where
  pub queues : List (List MlfqJob)
  pub running : Option MlfqJob
  pub last_time : ℕ

unfoldable pub empty_queues : ℕ → List (List MlfqJob)
empty_queues zero = []
empty_queues (suc n) = [] ∷ empty_queues n

-- The ten lists are taken to be there: the source does not look whether `list_create` gave them.
unfoldable pub create : (memory : Bool) → Option Info
unfolding empty_queues
create memory =
    if memory
    then some (record { queues = empty_queues max_mlfq_levels; running = none; last_time = 0 })
    else none

-- The head of the first queue that is not empty, taken out of it.
unfoldable pub take_first : List (List MlfqJob) → Option MlfqJob × List (List MlfqJob)
take_first [] = (none, [])
take_first ([] ∷ queues) = let (w, rest) = take_first queues in (w, [] ∷ rest)
take_first ((w ∷ queue) ∷ queues) = (some w, queue ∷ queues)

-- `list_insert(info->queues[level], w)`: at the end, unless `malloc` fails.
unfoldable pub append_at : Resources → ℕ → MlfqJob → List (List MlfqJob) → List (List MlfqJob)
append_at m level w [] = []
append_at m zero w (queue ∷ queues) =
    (if m.job_node w.job.ref w.job.remaining_time then queue ++ w ∷ [] else queue) ∷ queues
append_at m (suc level) w (queue ∷ queues) = queue ∷ append_at m level w queues

-- `schedule_next` from `info->running = next;` on, with `next` taken out of its queue.
unfoldable pub run_first :
    Resources
    → Option MlfqJob
    → List (List MlfqJob)
    → Scheduler
    → Info
    → ℕ
    → Outcome (Info × Scheduler)
unfolding job_get_remaining_time
run_first m none queues s info now = ok (record info { queues = queues; running = none }, s)
run_first m (some w) queues s info now = do
  let rem = job_get_remaining_time w.job
  let run : ℕ = if ltb rem 1 then rem else 1
  (done, s') ← scheduler_schedule_next_completion m s (add_time now run)
  ok (record { queues = queues; running = some w; last_time = now }, s')

unfoldable pub schedule_next : Resources → Scheduler → Info → ℕ → Outcome (Info × Scheduler)
unfolding take_first run_first
schedule_next m s info now =
    let (next, queues) = take_first info.queues in run_first m next queues s info now

-- What the running job has run since it was started is taken off its remaining time; a job that has
-- run goes down a level.
unfoldable pub charge : MlfqJob → ℕ → MlfqJob
unfolding job_get_remaining_time job_set_remaining_time
charge w run =
    if ltb 0 run
    then (let rem = job_get_remaining_time w.job in
        let run' = if ltb rem run then rem else run in
        record {
          job = job_set_remaining_time w.job (rem - run');
          level = if leb 1 run' && ltb w.level (max_mlfq_levels - 1) then w.level + 1 else w.level;
        })
    else w

-- `schedulerMLFQScheduleJob` behind the insertion of the new job, with the running job `w`.
unfoldable pub preempt :
    Resources → Info → Option MlfqJob → Scheduler → ℕ → Outcome (Info × Scheduler)
unfolding append_at schedule_next charge
preempt m info none s now = schedule_next m s info now
preempt m info (some w) s now =
    if ltb 0 w.level
    then (do
      (cancelled, s') ← scheduler_cancel_next_completion s
      let w' = charge w ((now + 2 ^ 64 - info.last_time) % 2 ^ 64)
      let info' = record info { queues = append_at m w'.level w' info.queues; running = none }
      schedule_next m s' info' now)
    else ok (info, s)

-- A wrapper that `malloc` does not give is written through NULL.
unfoldable pub schedule_job : Resources → Info → Scheduler → Job → ℕ → Outcome (Info × Scheduler)
unfolding preempt
schedule_job m info s job now =
    if m.wrapper job.ref
    then (let queues = append_at m 0 (record { job = job; level = 0 }) info.queues in
        preempt m (record info { queues = queues }) info.running s now)
    else fault

-- The slice of the running job is over: it is done, or goes down a level.
unfoldable pub end_slice :
    Resources → Option MlfqJob → List (List MlfqJob) → Option Job × List (List MlfqJob)
unfolding append_at job_get_remaining_time job_set_remaining_time
end_slice m none queues = (none, queues)
end_slice m (some w) queues =
    let rem = job_get_remaining_time w.job in
    if ltb 1 rem
    then (let w' : MlfqJob = record {
      job = job_set_remaining_time w.job (rem - 1);
      level = if ltb w.level (max_mlfq_levels - 1) then w.level + 1 else w.level;
    } in
        (none, append_at m w'.level w' queues))
    else (some (job_set_remaining_time w.job 0), queues)

unfoldable pub complete_job :
    Resources → Info → Scheduler → ℕ → Outcome (Option Job × Info × Scheduler)
unfolding end_slice schedule_next
complete_job m info s now = do
  let (finished, queues) = end_slice m info.running info.queues
  (info', s') ← schedule_next m s (record info { queues = queues; running = none }) now
  ok (finished, info', s')
