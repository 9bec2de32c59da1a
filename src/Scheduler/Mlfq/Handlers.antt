-- ===== src/Scheduler/Mlfq/Handlers.antt =====
-- The end of a time slice of `scheduler_MLFQ_t` keeps its invariant and its jobs.
use cmpsc_473_operating_syst.Common.{
  ℕ, ◌+◌, ◌-◌, ◌^◌, ◌≤◌, ◌<◌, ◌≡◌, refl, ap, sym, ◌∙◌, inl, inr, Bool, true, Option, none, some,
  List, [], ◌∷◌, arith, ltb, if◌then◌else◌, length, Bool-cases,
}
use cmpsc_473_operating_syst.Heap.{null}
use cmpsc_473_operating_syst.Job.{Job}
use cmpsc_473_operating_syst.Outcome.{ok, Succeeds, succeeds, Succeeds-bind, ◌>>=◌}
use cmpsc_473_operating_syst.Scheduler.{Scheduler, Resources, add_time}
use cmpsc_473_operating_syst.Scheduler.Completion.{
  Ready, completion_at, scheduler_schedule_next_completion-Scheduled,
}
use cmpsc_473_operating_syst.Scheduler.Mlfq.{
  MlfqJob, Info, take_first, end_slice, run_first, schedule_next, complete_job,
}
use cmpsc_473_operating_syst.Scheduler.Mlfq.Levels.{
  Levels, waiting, all_jobs, count, NoneBelow, Taken, take_first-Taken, append_at-Levels,
  append_at-count,
}
use cmpsc_473_operating_syst.Simulator.Queue.{Scheduled}

-- `malloc` has a node for every list.
abbrev pub HasNodes : Resources → Type 0
HasNodes m = (ref remaining : ℕ) → m.job_node ref remaining ≡ true

abbrev pub IsLevel : Option MlfqJob → Type 0
IsLevel none = Unit {0}
IsLevel (some w) = w.level < 10

-- Every waiting job stands in the queue of its level, there are ten levels, and no job waits while
-- none runs.
pub record IsOrdered (info : Info) : Type 0 where
  pub levels : Levels 0 info.queues
  pub ten : length info.queues ≡ 10
  pub running_level : IsLevel info.running
  pub busy : info.running ≡ none → waiting info.queues ≡ 0

-- The jobs that the policy holds, the running one first.
abbrev pub held : Info → List MlfqJob
held info = elim info.running [ none ↦ all_jobs info.queues | some w ↦ w ∷ all_jobs info.queues ]

-- How long a job runs before the next event.
abbrev pub slice : MlfqJob → ℕ
slice w = if ltb w.job.remaining_time 1 then w.job.remaining_time else 1

-- The job that runs from `now` on gets its completion event; if none runs, nothing is scheduled.
abbrev pub Runs : Resources → Scheduler → ℕ → Option MlfqJob → Scheduler → Type 0
Runs m s now none s' = s' ≡ s
Runs m s now (some w) s' =
    Scheduled m.events s.sim (completion_at s (now + slice w)) (s'.completion_event, s'.sim)

-- No waiting job has a level below that of the running one.
abbrev pub RunsLeast : Option MlfqJob → List (List MlfqJob) → Type 0
RunsLeast none queues = waiting queues ≡ 0
RunsLeast (some w) queues = NoneBelow w.level queues

NoneBelow-take :
    (l n : ℕ) (queues : List (List MlfqJob))
    → NoneBelow l queues
    → NoneBelow l (take_first queues).1
unfolding take_first
NoneBelow-take l n [] h = tt
NoneBelow-take l n ([] ∷ queues) (tt', h) = (tt, NoneBelow-take l n queues h)
NoneBelow-take l n ((w ∷ queue) ∷ queues) ((h, a), b) = (a, b)

-- What starting the next job of `queues` leaves behind.
abbrev pub Started : Resources → Scheduler → ℕ → List (List MlfqJob) → Info × Scheduler → Type 0
Started m s now queues (info, s') =
    IsOrdered info
    × (held info ≡ all_jobs queues)
    × RunsLeast info.running info.queues
    × Runs m s now info.running s'

run_first-Started :
    (m : Resources) (t : Option MlfqJob × List (List MlfqJob)) (s : Scheduler) (info : Info)
    (now : ℕ)
    → Ready m s
    → s.completion_event ≡ null
    → s.sim.sim_time ≤ now
    → now + 1 < 2 ^ 64
    → Levels 0 info.queues
    → length info.queues ≡ 10
    → Taken 0 info.queues t
    → ((l : ℕ) → NoneBelow l info.queues → NoneBelow l t.1)
    → Succeeds (Started m s now info.queues) (run_first m t.0 t.1 s info now)
unfolding run_first
run_first-Started m (none, queues) s info now r idle late small levels ten (same, empty) keep =
    succeeds (
      record {
        levels = rw same levels;
        ten = rw same ten;
        running_level = tt;
        busy = λ e. rw same empty;
      },
      ap all_jobs same,
      rw same empty,
      refl,
    )
run_first-Started m (some w, queues) s info now r idle late small levels ten
      (levels', size, first, low, high, least) keep =
    let at : add_time now (slice w) ≡ now + slice w = ground arith in
    rw at (
      Succeeds-bind
        ((scheduler_schedule_next_completion-Scheduled m s (now + slice w) r (omega arith)).0
          (ground arith))
        λ (event, s') (h, event_is). succeeds (
          record {
            levels = levels';
            ten = omega arith;
            running_level = omega arith;
            busy = λ e. cc;
          },
          sym first,
          keep w.level least,
          h,
        ))

-- With queues in order and no completion pending, `schedule_next` starts the first job of the least level, keeps every job, and leaves the processor idle only if none waits.
pub schedule_next-Started :
    (m : Resources) (s : Scheduler) (info : Info) (now : ℕ)
    → Ready m s
    → s.completion_event ≡ null
    → s.sim.sim_time ≤ now
    → now + 1 < 2 ^ 64
    → Levels 0 info.queues
    → length info.queues ≡ 10
    → Succeeds (Started m s now info.queues) (schedule_next m s info now)
unfolding schedule_next
schedule_next-Started m s info now r idle late small levels ten =
    run_first-Started m (take_first info.queues) s info now r idle late small levels ten
      (take_first-Taken 0 info.queues levels) (λ l. NoneBelow-take l 0 info.queues)

-- A running job with more than one unit left, as it waits again: a unit less, a level further down.
abbrev pub demoted : Option MlfqJob → List MlfqJob
demoted none = []
demoted (some w) =
    if ltb 1 w.job.remaining_time
    then record {
      job = record w.job { remaining_time = w.job.remaining_time - 1 };
      level = if ltb w.level 9 then w.level + 1 else w.level;
    }
      ∷ []
    else []

-- A running job with no more than one unit left.
abbrev pub finished : Option MlfqJob → Option Job
finished none = none
finished (some w) =
    if ltb 1 w.job.remaining_time then none else some (record w.job { remaining_time = 0 })

-- What the end of a slice makes of the queues and the running job.
abbrev pub SliceEnded :
    Option MlfqJob → List (List MlfqJob) → Option Job × List (List MlfqJob) → Type 0
SliceEnded running queues (done, queues') =
    Levels 0 queues'
    × (length queues' ≡ 10)
    × ((test : MlfqJob → Bool)
        → count test (all_jobs queues')
          ≡ count test (all_jobs queues) + count test (demoted running))
    × (done ≡ finished running)

end_slice-SliceEnded :
    (m : Resources) (running : Option MlfqJob) (queues : List (List MlfqJob))
    → HasNodes m
    → IsLevel running
    → Levels 0 queues
    → length queues ≡ 10
    → SliceEnded running queues (end_slice m running queues)
unfolding end_slice
end_slice-SliceEnded m none queues memory level levels ten =
    (levels, ten, (λ test. omega arith), refl)
end_slice-SliceEnded m (some w) queues memory level levels ten =
    elim (Bool-cases (ltb 1 w.job.remaining_time)) [
      | inl more ↦ rw more (
          let level' : ℕ = if ltb w.level 9 then w.level + 1 else w.level in
          let w' : MlfqJob = record {
            job = record w.job { remaining_time = w.job.remaining_time - 1 };
            level = level';
          } in
          let there : level' < length queues = ground arith in
          let (levels', size, waits) =
            append_at-Levels m 0 level' w' queues (memory _ _) (omega arith) there levels in
          (
            levels',
            omega arith,
            (λ test. append_at-count m test level' w' queues (memory _ _) there),
            refl,
          ))
      | inr over ↦ rw over (levels, ten, (λ test. omega arith), refl)
    ]

-- What a completion event leaves behind.
abbrev pub Completed : Resources → Scheduler → ℕ → Info → Option Job × Info × Scheduler → Type 0
Completed m s now info (done, info', s') =
    IsOrdered info'
    × ((test : MlfqJob → Bool)
        → count test (held info')
          ≡ count test (all_jobs info.queues) + count test (demoted info.running))
    × (done ≡ finished info.running)
    × RunsLeast info'.running info'.queues
    × Runs m s now info'.running s'

slice_then_next :
    (m : Resources) (s : Scheduler) (info : Info) (now : ℕ) (t : Option Job × List (List MlfqJob))
    → Ready m s
    → s.completion_event ≡ null
    → s.sim.sim_time ≤ now
    → now + 1 < 2 ^ 64
    → SliceEnded info.running info.queues t
    → Succeeds (Completed m s now info) (
        schedule_next m s (record info { queues = t.1; running = none }) now >>= λ (info', s').
        ok (t.0, info', s'))
slice_then_next m s info now (ended, queues) r idle late small (levels, ten, counts, done) =
    Succeeds-bind
      (schedule_next-Started m s (record info { queues = queues; running = none }) now r idle late
        small levels ten)
      λ (info', s') (ordered, all, least, runs).
        succeeds (ordered, (λ test. ap (count test) all ∙ counts test), done, least, runs)

-- When a time slice ends, with queues in order, no completion pending, and memory for the lists: a
-- running job with more than one unit left waits again, with a unit less and a level further down; one
-- with no more is handed back, finished. Every other job is held as before, and no more jobs are. The
-- feedback queues stay in order. The processor goes to a job of the least level, which gets its
-- completion event if there is memory for it, or is idle if no job waits.
pub complete_job-Completed :
    (m : Resources) (s : Scheduler) (info : Info) (now : ℕ)
    → HasNodes m
    → IsOrdered info
    → Ready m s
    → s.completion_event ≡ null
    → s.sim.sim_time ≤ now
    → now + 1 < 2 ^ 64
    → Succeeds (Completed m s now info) (complete_job m info s now)
unfolding complete_job
complete_job-Completed m s info now memory o r idle late small =
    slice_then_next m s info now (end_slice m info.running info.queues) r idle late small
      (end_slice-SliceEnded m info.running info.queues memory o.running_level o.levels o.ten)
