-- ===== src/Scheduler/Completion.antt =====
-- `schedulerScheduleNextCompletion` and `schedulerCancelNextCompletion` on a valid simulator.
use cmpsc_473_operating_syst.Common.{
  ℕ, ◌+◌, ◌^◌, ◌≤◌, ◌<◌, ◌≡◌, refl, inl, inr, true, false, ◌==◌, if◌then◌else◌,
}
use cmpsc_473_operating_syst.Heap.{Ptr, null}
use cmpsc_473_operating_syst.Heap.Linked.{has}
use cmpsc_473_operating_syst.Outcome.{ok, Succeeds, succeeds, Succeeds-bind}
use cmpsc_473_operating_syst.Scheduler.{
  Callback, complete_job, Scheduler, Resources, scheduler_schedule_next_completion,
  scheduler_cancel_next_completion,
}
use cmpsc_473_operating_syst.Simulator.{Event, Simulator, event_completion, remove_cell}
use cmpsc_473_operating_syst.Simulator.Queue.{
  IsValid, IsFresh, has_memory, Scheduled, simulator_schedule-Scheduled,
  simulator_remove_event-IsValid,
}

-- The simulator can take one more event.
pub record Ready (m : Resources) (s : Scheduler) : Type 0 where
  pub fresh : IsFresh m.events
  pub valid : IsValid s.sim
  pub room : s.sim.id + 1 < 2 ^ 64

abbrev pub completion_at : Scheduler → ℕ → Event Callback
completion_at s timestamp = record {
  timestamp = timestamp;
  kind = event_completion;
  id = s.sim.id;
  callback = complete_job;
}

Scheduled-answer :
    (m : Resources) (s : Scheduler) (e : Event Callback) (p : Ptr) (sim : Simulator Callback)
    → Scheduled m.events s.sim e (p, sim)
    → (if p == null then false else true) ≡ has_memory m.events s.sim
Scheduled-answer m s e p sim (v, t, inl (full, none_made, same)) = rw (full, none_made) refl
Scheduled-answer m s e p sim (v, t, inr (memory, made, at, queued)) = rw (memory, made) refl

-- With no completion pending and a time that is not past: if there is memory for it, a completion event
-- is queued at that time, and the answer is true; if there is none, the queue is left alone, and the
-- answer is false. With one pending, nothing happens and the answer is false.
pub scheduler_schedule_next_completion-Scheduled :
    (m : Resources) (s : Scheduler) (timestamp : ℕ)
    → Ready m s
    → s.sim.sim_time ≤ timestamp
    → ((s.completion_event == null) ≡ true
        → Succeeds
            (λ (done, s').
              Scheduled m.events s.sim (completion_at s timestamp) (s'.completion_event, s'.sim)
              × (done ≡ has_memory m.events s.sim))
            (scheduler_schedule_next_completion m s timestamp))
      × ((s.completion_event == null) ≡ false
          → scheduler_schedule_next_completion m s timestamp ≡ ok (false, s))
unfolding scheduler_schedule_next_completion
scheduler_schedule_next_completion-Scheduled m s timestamp r late = (
  λ none_pending. rw none_pending (
      Succeeds-bind
        (simulator_schedule-Scheduled m.events s.sim timestamp event_completion complete_job r.fresh
          r.valid r.room late)
        λ (p, sim) h. succeeds (h, Scheduled-answer m s (completion_at s timestamp) p sim h)),
  λ pending. rw pending,
)

-- A pending completion that is still queued is taken out of the queue, and no other event is.
pub scheduler_cancel_next_completion-IsValid :
    (s : Scheduler)
    → IsValid s.sim
    → (s.completion_event == null) ≡ false
    → has s.completion_event s.sim.queue ≡ true
    → Succeeds
        (λ (done, s').
          (done ≡ true)
          × (s'.completion_event ≡ null)
          × IsValid s'.sim
          × (s'.sim.queue ≡ remove_cell s.completion_event s.sim.queue)
          × (s'.sim.sim_time ≡ s.sim.sim_time)
          × (s'.sim.id ≡ s.sim.id))
        (scheduler_cancel_next_completion s)
unfolding scheduler_cancel_next_completion
scheduler_cancel_next_completion-IsValid s v pending queued = rw pending (
    Succeeds-bind (simulator_remove_event-IsValid s.sim s.completion_event v pending queued)
      λ sim (v', q, t, i). succeeds (refl, refl, v', q, t, i))
