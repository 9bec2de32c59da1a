-- ===== src/Homework/IntList/Display.antt =====
-- What the forward display prints of a list of cells.
use cmpsc_473_operating_syst.Common.{ℕ, zero, suc, ◌<◌, ◌≡◌, refl, List, [], ◌∷◌, arith, length}
use cmpsc_473_operating_syst.Heap.{Ptr, null, Heap, ok}
use cmpsc_473_operating_syst.Heap.Access.{load-ok}
use cmpsc_473_operating_syst.Heap.Linked.{Cells, first, Linked}
use cmpsc_473_operating_syst.Homework.IntList.{display_forward}

-- The numbers of the cells, in order.
abbrev pub values : Cells ℕ → List ℕ
values [] = []
values ((p, d) ∷ xs) = d ∷ values xs

-- On a list, with more fuel than it has nodes, the forward display changes nothing and prints its
-- numbers in order.
pub display_forward-values :
    (fuel : ℕ) (h : Heap ℕ) (before : Ptr) (xs : Cells ℕ)
    → Linked h before xs null
    → length xs < fuel
    → display_forward fuel (first xs null) h ≡ ok (values xs) h
unfolding display_forward
display_forward-values zero h before xs s enough = absurd (omega arith)
display_forward-values (suc fuel) h before [] s enough = refl
display_forward-values (suc fuel) h before ((p, d) ∷ xs) (ne, at, out, s) enough =
    rw (ne, load-ok h p _ ne at, display_forward-values fuel h p xs s (omega arith)) refl
