-- ===== src/Homework/IntList/Tests.antt =====
-- The displays of a list of two numbers.
use cmpsc_473_operating_syst.Common.{ℕ, ◌≡◌, refl, none, some, [], ◌∷◌, ◌==◌, if◌then◌else◌}
use cmpsc_473_operating_syst.Heap.{Heap, node, ok, load}
use cmpsc_473_operating_syst.Heap.Linked.{Cells}
use cmpsc_473_operating_syst.Homework.IntList.{display_forward}
use cmpsc_473_operating_syst.Homework.IntList.Display.{values}

abbrev cells : Cells ℕ
cells = (1, 10) ∷ (2, 20) ∷ []

abbrev memory : Heap ℕ
memory a = if a == 1 then some (node 2 0 10) else if a == 2 then some (node 0 1 20) else none

display_forward_two : display_forward 3 1 memory ≡ ok (values cells) memory
unfolding display_forward load
display_forward_two = refl
