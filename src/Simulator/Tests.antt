-- ===== src/Simulator/Tests.antt =====
-- The theorems on the simulator at a queue of two events.
use cmpsc_473_operating_syst.Common.{ℕ, ◌≡◌, refl, true, [], ◌∷◌, arith, ◌↔◌}
use cmpsc_473_operating_syst.Heap.Fresh.{above, has-above}
use cmpsc_473_operating_syst.Outcome.{Succeeds}
use cmpsc_473_operating_syst.Simulator.{
  Event, Simulator, Memory, event_completion, event_arrival, simulator_event_compare,
  simulator_schedule,
}
use cmpsc_473_operating_syst.Simulator.Queue.{
  IsValid, IsFresh, Scheduled, simulator_schedule-Scheduled,
}
use cmpsc_473_operating_syst.LinkedList.{before, same, after}
use cmpsc_473_operating_syst.Simulator.Order.{Earlier, simulator_event_compare_lem}

memory : Memory ℕ
memory = record { event = λ n. true; node = λ n xs. above xs }

memory-IsFresh : IsFresh memory
unfolding memory
memory-IsFresh n xs = has-above xs

abbrev soon : Event ℕ
soon = record { timestamp = 5; kind = event_completion; id = 1; callback = 10 }

abbrev late : Event ℕ
late = record { timestamp = 9; kind = event_arrival; id = 0; callback = 20 }

abbrev two_events : Simulator ℕ
two_events = record { queue = (2, soon) ∷ (1, late) ∷ []; sim_time = 3; id = 2 }

two_events-IsValid : IsValid two_events
unfolding simulator_event_compare
two_events-IsValid = record {
  sorted = ((refl, tt), (tt, tt));
  future = (omega arith, (omega arith, tt));
  older = (omega arith, (omega arith, tt));
  distinct = (refl, refl, (refl, refl, tt));
}

simulator_schedule-Scheduled_example :
    Succeeds
      (Scheduled memory two_events
        (record { timestamp = 7; kind = event_arrival; id = 2; callback = 30 }))
      (simulator_schedule memory two_events 7 event_arrival 30)
simulator_schedule-Scheduled_example =
    simulator_schedule-Scheduled memory two_events 7 event_arrival 30 memory-IsFresh
      two_events-IsValid (omega arith) (omega arith)

simulator_event_compare_lem_example :
    ((simulator_event_compare soon late ≡ before) ↔ Earlier soon late)
    × ((simulator_event_compare soon late ≡ same)
        ↔ ((soon.timestamp ≡ late.timestamp) × (soon.kind ≡ late.kind) × (soon.id ≡ late.id)))
    × ((simulator_event_compare soon late ≡ after) ↔ Earlier late soon)
simulator_event_compare_lem_example = simulator_event_compare_lem soon late
