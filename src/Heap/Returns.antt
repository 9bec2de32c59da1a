-- ===== src/Heap/Returns.antt =====
-- Total correctness of a command: no fault, enough fuel, and a postcondition.
use cmpsc_473_operating_syst.Heap.{Heap, Run, ok, Cmd, and_then}

pub data Returns {A B : Type 0} (P : B → Heap A → Type 0) : Run A B → Type 0 where
  returns : {b : B} {h : Heap A} → P b h → Returns P (ok b h)

module _ {A B : Type 0} {P : B → Heap A → Type 0} where
  pub Returns-bind :
      {C : Type 0} {Q : C → Heap A → Type 0} {r : Run A B} {k : B → Cmd A C}
      → Returns P r
      → ((b : B) (h : Heap A) → P b h → Returns Q (k b h))
      → Returns Q (and_then r k)
  Returns-bind (returns p) next = next _ _ p

  pub Returns-mono :
      {Q : B → Heap A → Type 0} {r : Run A B}
      → Returns P r
      → ((b : B) (h : Heap A) → P b h → Q b h)
      → Returns Q r
  Returns-mono (returns p) weaken = returns (weaken _ _ p)
