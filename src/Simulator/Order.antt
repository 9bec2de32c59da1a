-- ===== src/Simulator/Order.antt =====
-- The order of events: by time, then completions before arrivals, then by id.
use cmpsc_473_operating_syst.Common.{◌<◌, ◌≡◌, ◌⊎◌, arith, ◌↔◌}
use cmpsc_473_operating_syst.LinkedList.{before, same, after}
use cmpsc_473_operating_syst.Simulator.{Event, rank, simulator_event_compare}

module _ {C : Type 0} where
  -- `a` comes before `b` in the order (timestamp, type, id).
  abbrev pub Earlier : Event C → Event C → Type 0
  Earlier a b =
      (a.timestamp < b.timestamp)
      ⊎ ((a.timestamp ≡ b.timestamp)
          × ((rank a.kind < rank b.kind) ⊎ ((a.kind ≡ b.kind) × (a.id < b.id))))

  -- `simulatorEventCompare` is negative exactly when the first event comes before the second in the
  -- order (timestamp, type, id), zero exactly when all three agree, and positive exactly when the
  -- second event comes before the first.
  pub simulator_event_compare_lem :
      (a b : Event C)
      → ((simulator_event_compare a b ≡ before) ↔ Earlier a b)
        × ((simulator_event_compare a b ≡ same)
            ↔ ((a.timestamp ≡ b.timestamp) × (a.kind ≡ b.kind) × (a.id ≡ b.id)))
        × ((simulator_event_compare a b ≡ after) ↔ Earlier b a)
  unfolding simulator_event_compare
  simulator_event_compare_lem a b = ground arith

  pub compare_trans :
      (a b c : Event C)
      → simulator_event_compare a b ≡ before
      → simulator_event_compare b c ≡ before
      → simulator_event_compare a c ≡ before
  unfolding simulator_event_compare
  compare_trans a b c h k = ground arith

  -- Events with different ids are never the same.
  pub compare_flip :
      (a b : Event C)
      → a.id < b.id
      → (simulator_event_compare a b ≡ before) ⊎ (simulator_event_compare b a ≡ before)
  unfolding simulator_event_compare
  compare_flip a b h = ground arith
