-- ===== src/AppendList/Tests.antt =====
-- The theorems on the appending list at a list of two nodes.
use cmpsc_473_operating_syst.Common.{
  ℕ, ◌≡◌, refl, none, some, [], ◌∷◌, ◌++◌, arith, ◌==◌, if◌then◌else◌,
}
use cmpsc_473_operating_syst.Heap.{Heap, node}
use cmpsc_473_operating_syst.Heap.Linked.{Cells}
use cmpsc_473_operating_syst.Heap.Returns.{Returns}
use cmpsc_473_operating_syst.Heap.Splice.{IsList}
use cmpsc_473_operating_syst.AppendList.{ListT, list_insert, list_remove}
use cmpsc_473_operating_syst.AppendList.Append.{Now, list_insert-append}
use cmpsc_473_operating_syst.AppendList.Unlink.{list_remove-unlinked}

abbrev cells : Cells ℕ
cells = (1, 10) ∷ (2, 20) ∷ []

abbrev memory : Heap ℕ
memory a = if a == 1 then some (node 2 0 10) else if a == 2 then some (node 0 1 20) else none

abbrev pair : ListT
pair = record { head = 1; tail = 2; count = 2 }

pair-IsList : IsList memory pair.head pair.tail pair.count cells
pair-IsList = record {
  chain = (refl, refl, refl, (refl, refl, refl, tt));
  head_is = refl;
  tail_is = refl;
  count_is = refl;
}

list_insert-append_example :
    Returns
      (λ (q, r) g.
        (q ≡ 3)
        × ((l' : ListT) × (r ≡ some l')
            × Now memory ((3, 30) ∷ cells) (cells ++ (3, 30) ∷ []) l' g))
      (list_insert 3 (some pair) 30 memory)
list_insert-append_example =
    list_insert-append memory pair cells 3 30 pair-IsList (omega arith) refl

list_remove-unlinked_example :
    Returns
      (λ r g. (g 2 ≡ none) × ((l' : ListT) × (r ≡ some l') × Now memory cells ((1, 10) ∷ []) l' g))
      (list_remove (some pair) 2 memory)
list_remove-unlinked_example = list_remove-unlinked memory pair ((1, 10) ∷ []) 2 20 [] pair-IsList
