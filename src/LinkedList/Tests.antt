-- ===== src/LinkedList/Tests.antt =====
-- The theorems on the list of simulatorlab-FreezeKickerz/linked_list.c at a list of three nodes.
use cmpsc_473_operating_syst.Common.{ℕ, refl, none, some, [], ◌∷◌, arith, ◌==◌, ltb, if◌then◌else◌}
use cmpsc_473_operating_syst.Heap.{Heap, node}
use cmpsc_473_operating_syst.Heap.Linked.{Cells}
use cmpsc_473_operating_syst.Heap.Returns.{Returns}
use cmpsc_473_operating_syst.Heap.Splice.{IsList}
use cmpsc_473_operating_syst.LinkedList.{
  ListT, CompareFn, before, same, after, list_insert, list_remove, list_destroy,
}
use cmpsc_473_operating_syst.LinkedList.Insert.{Grown, insert_cell, list_insert-insert_cell}
use cmpsc_473_operating_syst.LinkedList.Remove.{Shrunk, list_remove-append}
use cmpsc_473_operating_syst.LinkedList.Walk.{Without, list_destroy-Without}

abbrev by_size : CompareFn ℕ
by_size a b = if ltb a b then before else if a == b then same else after

abbrev cells : Cells ℕ
cells = (1, 10) ∷ (2, 20) ∷ (3, 30) ∷ []

abbrev memory : Heap ℕ
memory a =
    if a == 1
    then some (node 2 0 10)
    else if a == 2
    then some (node 3 1 20)
    else if a == 3
    then some (node 0 2 30)
    else none

abbrev numbers : ListT ℕ
numbers = record { head = 1; tail = 3; count = 3; compare = some by_size }

numbers-IsList : IsList memory numbers.head numbers.tail numbers.count cells
numbers-IsList = record {
  chain = ((refl, refl, refl, (refl, refl, refl, (refl, refl, refl, tt))));
  head_is = refl;
  tail_is = refl;
  count_is = refl;
}

list_insert-insert_cell_example :
    Returns
      (Grown memory numbers 4 ((4, 25) ∷ cells) (insert_cell (some by_size) (4, 25) cells))
      (list_insert 4 (some numbers) 25 memory)
list_insert-insert_cell_example =
    list_insert-insert_cell memory numbers cells 4 25 numbers-IsList (omega arith) refl

list_remove-append_example :
    Returns
      (Shrunk memory numbers 2 cells ((1, 10) ∷ (3, 30) ∷ []))
      (list_remove (some numbers) 2 memory)
list_remove-append_example =
    list_remove-append memory numbers ((1, 10) ∷ []) 2 20 ((3, 30) ∷ []) numbers-IsList

list_destroy-Without_example :
    Returns (λ _. Without cells memory) (list_destroy (some numbers) memory)
list_destroy-Without_example = list_destroy-Without memory numbers cells numbers-IsList
