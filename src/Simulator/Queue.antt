-- ===== src/Simulator/Queue.antt =====
-- The invariant of the simulator: its event queue is in order, no event lies in the past, and ids and
-- addresses are used once.
use cmpsc_473_operating_syst.Common.{
  ℕ, ◌+◌, ◌^◌, ◌≤◌, ◌<◌, ◌≡◌, refl, inl, inr, Bool, true, false, ◌&&◌, not, some, [], ◌∷◌, arith,
  ◌==◌, ◌⊎◌, ltb, ◌%◌, Bool-cases,
}
use cmpsc_473_operating_syst.Heap.{Ptr, null}
use cmpsc_473_operating_syst.Heap.Linked.{Cells, has}
use cmpsc_473_operating_syst.LinkedList.{before, goes_before}
use cmpsc_473_operating_syst.LinkedList.Insert.{insert_cell}
use cmpsc_473_operating_syst.LinkedList.Cells.{
  All, All-mono, Distinct, insert_cell-cons, insert_cell-nil, All-insert_cell, Distinct-insert_cell,
}
use cmpsc_473_operating_syst.Outcome.{abort, Succeeds, succeeds}
use cmpsc_473_operating_syst.Simulator.{
  Event, EventType, Simulator, Memory, simulator_event_compare, remove_cell, simulator_schedule,
  simulator_remove_event, simulator_sim_time,
}
use cmpsc_473_operating_syst.Simulator.Order.{compare_trans, compare_flip}

module _ {C : Type 0} where
  abbrev pub Sorted : Cells (Event C) → Type 0
  Sorted [] = Unit {0}
  Sorted ((p, e) ∷ xs) = All (λ d. simulator_event_compare e d ≡ before) xs × Sorted xs

  Sorted-insert_cell :
      (p : Ptr) (d : Event C) (xs : Cells (Event C))
      → All (λ e. e.id < d.id) xs
      → Sorted xs
      → Sorted (insert_cell (some simulator_event_compare) (p, d) xs)
  Sorted-insert_cell p d [] older s = rw insert_cell-nil (tt, tt)
  Sorted-insert_cell p d ((q, e) ∷ xs) (h, older) (a, s) =
      rw insert_cell-cons (elim (Bool-cases (goes_before simulator_event_compare e d)) [
        | inl more ↦ rw more (
          All-insert_cell _ simulator_event_compare p d xs (ground arith) a,
          Sorted-insert_cell p d xs older s,
        )
        | inr stop ↦
            let first : simulator_event_compare d e ≡ before = ground (arith, compare_flip e d h) in
            rw stop ((first, All-mono _ _ xs (λ b k. compare_trans d e b first k) a), (a, s))
      ])

  All-remove_cell :
      (P : Event C → Type 0) (p : Ptr) (xs : Cells (Event C)) → All P xs → All P (remove_cell p xs)
  unfolding remove_cell
  All-remove_cell P p [] a = tt
  All-remove_cell P p ((q, e) ∷ xs) (h, a) = elim (Bool-cases (p == q)) [
    | inl hit ↦ rw hit a
    | inr miss ↦ rw miss (h, All-remove_cell P p xs a)
  ]

  has-remove_cell :
      (a p : Ptr) (xs : Cells (Event C)) → has a xs ≡ false → has a (remove_cell p xs) ≡ false
  unfolding remove_cell
  has-remove_cell a p [] h = refl
  has-remove_cell a p ((q, e) ∷ xs) h = ground (arith, has-remove_cell a p xs)

  Distinct-remove_cell :
      (p : Ptr) (xs : Cells (Event C)) → Distinct xs → Distinct (remove_cell p xs)
  unfolding remove_cell
  Distinct-remove_cell p [] a = tt
  Distinct-remove_cell p ((q, e) ∷ xs) (ne, out, a) = elim (Bool-cases (p == q)) [
    | inl hit ↦ rw hit a
    | inr miss ↦ rw miss (ne, has-remove_cell q p xs out, Distinct-remove_cell p xs a)
  ]

  Sorted-remove_cell : (p : Ptr) (xs : Cells (Event C)) → Sorted xs → Sorted (remove_cell p xs)
  unfolding remove_cell
  Sorted-remove_cell p [] a = tt
  Sorted-remove_cell p ((q, e) ∷ xs) (h, s) = elim (Bool-cases (p == q)) [
    | inl hit ↦ rw hit s
    | inr miss ↦ rw miss (All-remove_cell _ p xs h, Sorted-remove_cell p xs s)
  ]

  pub record IsValid (sim : Simulator C) : Type 0 where
    pub sorted : Sorted sim.queue
    pub future : All (λ e. sim.sim_time ≤ e.timestamp) sim.queue
    pub older : All (λ e. e.id < sim.id) sim.queue
    pub distinct : Distinct sim.queue

  -- What `malloc` documents: the address it returns is not in use.
  abbrev pub IsFresh : Memory C → Type 0
  IsFresh m = (n : ℕ) (xs : Cells (Event C)) → has (m.node n xs) xs ≡ false

  -- Whether `malloc` has memory for the next event and for its node.
  abbrev pub has_memory : Memory C → Simulator C → Bool
  has_memory m sim = m.event sim.id && not (m.node sim.id sim.queue == null)

  -- What `simulatorSchedule` does to a simulator: without memory it answers NULL and leaves the queue
  -- alone; with memory it queues the event in a node.
  abbrev pub Scheduled : Memory C → Simulator C → Event C → Ptr × Simulator C → Type 0
  Scheduled m sim e (p, sim') =
      IsValid sim'
      × (sim'.sim_time ≡ sim.sim_time)
      × (((has_memory m sim ≡ false) × (p ≡ null) × (sim'.queue ≡ sim.queue))
          ⊎ ((has_memory m sim ≡ true)
              × ((p == null) ≡ false)
              × (p ≡ m.node sim.id sim.queue)
              × (sim'.queue ≡ insert_cell (some simulator_event_compare) (p, e) sim.queue)))

  -- For a time that is not past, scheduling succeeds. Without memory for the event and its node it
  -- returns NULL and leaves the queue alone; with memory it returns the node of the new event, put in
  -- its place in the queue. The queue stays in order and
  -- free of past events, and each event has an id and a node of its own, as long as the 2 ^ 64 ids
  -- are not used up.
  pub simulator_schedule-Scheduled :
      (m : Memory C) (sim : Simulator C) (timestamp : ℕ) (kind : EventType) (c : C)
      → IsFresh m
      → IsValid sim
      → sim.id + 1 < 2 ^ 64
      → sim.sim_time ≤ timestamp
      → Succeeds
          (Scheduled m sim
            (record { timestamp = timestamp; kind = kind; id = sim.id; callback = c }))
          (simulator_schedule m sim timestamp kind c)
  unfolding simulator_schedule simulator_sim_time
  simulator_schedule-Scheduled m sim timestamp kind c fresh v room late =
      let now : ltb timestamp sim.sim_time ≡ false = ground arith in
      let next : (sim.id + 1) % 2 ^ 64 ≡ sim.id + 1 = omega arith in
      let older : All (λ e. e.id < sim.id + 1) sim.queue =
        All-mono (λ e. e.id < sim.id) (λ e. e.id < sim.id + 1) sim.queue (λ e h. omega arith)
          v.older in
      rw now (elim (Bool-cases (m.event sim.id)) [
        | inr full ↦
            let none_left : has_memory m sim ≡ false = rw full refl in
            rw full (succeeds (v, refl, inl (none_left, refl, refl)))
        | inl some_memory ↦ rw some_memory (elim (Bool-cases (m.node sim.id sim.queue == null)) [
          | inl full ↦
              let none_left : has_memory m sim ≡ false = rw (some_memory, full) refl in
              rw (full, next)
                (succeeds (
                  record {
                    sorted = v.sorted;
                    future = v.future;
                    older = older;
                    distinct = v.distinct;
                  },
                  refl,
                  inl (none_left, refl, refl),
                ))
          | inr got ↦
              let memory : has_memory m sim ≡ true = rw (some_memory, got) refl in
              rw (got, next)
                (succeeds (
                  record {
                    sorted = Sorted-insert_cell _ _ sim.queue v.older v.sorted;
                    future = All-insert_cell _ simulator_event_compare _ _ sim.queue late v.future;
                    older =
                        All-insert_cell _ simulator_event_compare _ _ sim.queue (omega arith) older;
                    distinct =
                        Distinct-insert_cell simulator_event_compare _ _ sim.queue got
                          (fresh sim.id sim.queue) v.distinct;
                  },
                  refl,
                  inr (memory, got, refl, refl),
                ))
        ])
      ])

  -- A time in the past fails the assertion.
  pub simulator_schedule_past :
      (m : Memory C) (sim : Simulator C) (timestamp : ℕ) (kind : EventType) (c : C)
      → timestamp < sim.sim_time
      → simulator_schedule m sim timestamp kind c ≡ abort
  unfolding simulator_schedule simulator_sim_time
  simulator_schedule_past m sim timestamp kind c past = ground arith

  -- Taking a queued event out succeeds, takes out its node alone, and keeps the invariant.
  pub simulator_remove_event-IsValid :
      (sim : Simulator C) (p : Ptr)
      → IsValid sim
      → (p == null) ≡ false
      → has p sim.queue ≡ true
      → Succeeds
          (λ sim'.
            IsValid sim'
            × (sim'.queue ≡ remove_cell p sim.queue)
            × (sim'.sim_time ≡ sim.sim_time)
            × (sim'.id ≡ sim.id))
          (simulator_remove_event sim p)
  unfolding simulator_remove_event
  simulator_remove_event-IsValid sim p v ne i =
      rw (ne, i)
        (succeeds (
          record {
            sorted = Sorted-remove_cell p sim.queue v.sorted;
            future = All-remove_cell _ p sim.queue v.future;
            older = All-remove_cell _ p sim.queue v.older;
            distinct = Distinct-remove_cell p sim.queue v.distinct;
          },
          refl,
          refl,
          refl,
        ))
