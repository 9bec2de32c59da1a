-- ===== src/Simulator.antt =====
-- simulatorlab-FreezeKickerz/simulator.h and simulator.c: the discrete event simulator. Its queue is
-- the cells of a list of LinkedList: `list_insert` is `insert_cell` there, and `list_remove` takes
-- out the cell of an address. `C` is the type of a callback with its data.
pub mod Order
pub mod Queue
mod Tests
pub mod Destroy
use cmpsc_473_operating_syst.Common.{
  ℕ, zero, suc, ◌+◌, ◌%◌, ◌^◌, Bool, Option, none, some, [], ◌∷◌, ◌==◌, ltb, if◌then◌else◌,
}
use cmpsc_473_operating_syst.Heap.{Ptr, null}
use cmpsc_473_operating_syst.Heap.Linked.{Cells, has}
use cmpsc_473_operating_syst.LinkedList.{before, same, after, CompareFn}
use cmpsc_473_operating_syst.LinkedList.Insert.{insert_cell}
use cmpsc_473_operating_syst.Outcome.{Outcome, ok, abort, fault, out_of_fuel, ◌>>=◌}

-- `event_type_t`, and the integers of its values.
pub data EventType : Type 0 where
  event_completion event_arrival : EventType

abbrev pub rank : EventType → ℕ
rank event_completion = 0
rank event_arrival = 1

-- `event_t`
pub record Event (C : Type 0) : Type 0 where
  pub timestamp : ℕ
  pub kind : EventType
  pub id : ℕ
  pub callback : C

-- `simulator_t`
pub record Simulator (C : Type 0) : Type 0 where
  pub queue : Cells (Event C)
  pub sim_time : ℕ
  pub id : ℕ

-- What `malloc` answers: whether there is memory for the event with an id, and the address of the
-- node that holds it, NULL if there is none, given the nodes in use.
pub record Memory (C : Type 0) : Type 0 where
  pub event : ℕ → Bool
  pub node : ℕ → Cells (Event C) → Ptr

module _ {C : Type 0} where
  unfoldable pub simulator_sim_time : Simulator C → ℕ
  simulator_sim_time sim = sim.sim_time

  unfoldable pub simulator_event_compare : CompareFn (Event C)
  simulator_event_compare a b =
      if ltb a.timestamp b.timestamp
      then before
      else if a.timestamp == b.timestamp
      then (if ltb (rank a.kind) (rank b.kind)
          then before
          else if rank a.kind == rank b.kind
          then (if ltb a.id b.id then before else if a.id == b.id then same else after)
          else after)
      else after

  -- The two flags say whether `malloc` gives the simulator and `list_create` the queue.
  unfoldable pub simulator_create : (memory queue_memory : Bool) → Option (Simulator C)
  simulator_create memory queue_memory =
      if memory
      then (if queue_memory then some (record { queue = []; sim_time = 0; id = 0 }) else none)
      else none

  -- `list_remove`, on cells.
  unfoldable pub remove_cell : Ptr → Cells (Event C) → Cells (Event C)
  remove_cell p [] = []
  remove_cell p ((q, e) ∷ xs) = if p == q then xs else (q, e) ∷ remove_cell p xs

  unfoldable pub simulator_schedule :
      Memory C → Simulator C → ℕ → EventType → C → Outcome (Ptr × Simulator C)
  simulator_schedule m sim timestamp kind callback =
      if ltb timestamp (simulator_sim_time sim)
      then abort
      else if m.event sim.id
      then (let e : Event C = record {
        timestamp = timestamp;
        kind = kind;
        id = sim.id;
        callback = callback;
      } in
          let sim' = record sim { id = (sim.id + 1) % 2 ^ 64 } in
          let p = m.node sim.id sim.queue in
          if p == null
          then ok (null, sim')
          else ok (
            p,
            record sim' { queue = insert_cell (some simulator_event_compare) (p, e) sim.queue },
          ))
      else ok (null, sim)

  -- A reference to no node of the queue is dangling; `list_data` and `list_remove` pass over NULL.
  unfoldable pub simulator_remove_event : Simulator C → Ptr → Outcome (Simulator C)
  simulator_remove_event sim p =
      if p == null
      then ok sim
      else if has p sim.queue
      then ok (record sim { queue = remove_cell p sim.queue })
      else fault

  -- `exec` runs a callback, which may change the simulator and whatever else there is.
  unfoldable pub simulator_run :
      {W : Type 0}
      → (exec : C → Simulator C × W → Outcome (Simulator C × W)) → ℕ
      → Simulator C × W
      → Outcome (Simulator C × W)
  simulator_run exec zero s = out_of_fuel
  simulator_run exec (suc fuel) (sim, w) = elim sim.queue [
    | [] ↦ ok (sim, w)
    | (p, e) ∷ rest ↦ do
      (sim', w') ← exec e.callback (record sim { sim_time = e.timestamp }, w)
      sim'' ← simulator_remove_event sim' p
      simulator_run exec fuel (sim'', w')
  ]

  -- The loop of `simulatorDestroy`.
  unfoldable pub simulator_destroy : ℕ → Simulator C → Outcome (Simulator C)
  simulator_destroy zero sim = out_of_fuel
  simulator_destroy (suc fuel) sim = elim sim.queue [
    | [] ↦ ok sim
    | (p, e) ∷ rest ↦ do sim' ← simulator_remove_event sim p; simulator_destroy fuel sim'
  ]
