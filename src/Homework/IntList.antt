-- ===== src/Homework/IntList.antt =====
-- homework-1-FreezeKickerz/linked_list.h and linked_list.c: the doubly linked list of integers. A
-- function that gets the address of the head pointer returns the new head. `createNode` writes
-- through what `malloc` returns without a look, so NULL there is a fault. The loops take fuel.
pub mod Display
mod Tests
use cmpsc_473_operating_syst.Common.{ℕ, zero, suc, some, List, [], ◌∷◌, ◌==◌, if◌then◌else◌}
use cmpsc_473_operating_syst.Heap.{
  Ptr, null, node, Cmd, fault, out_of_fuel, pure, ◌>>=◌, ◌>>◌, store, load, set_next, set_prev,
  free,
}
use cmpsc_473_operating_syst.Heap.Splice.{set_next_if, set_prev_if}

unfoldable pub create_node : (fresh : Ptr) → ℕ → Cmd ℕ Ptr
create_node fresh d =
    if fresh == null then (λ h. fault) else do store fresh (some (node null null d)); pure fresh

unfoldable pub insert_at_beginning : (fresh : Ptr) → Ptr → ℕ → Cmd ℕ Ptr
unfolding create_node
insert_at_beginning fresh head d = do
  new ← create_node fresh d
  (if head == null then pure new else (do set_next new head; set_prev head new; pure new))

-- The node at which `while (temp->next != NULL)` ends.
unfoldable pub last_from : ℕ → Ptr → Cmd ℕ Ptr
last_from zero temp = λ h. out_of_fuel
last_from (suc fuel) temp = do
  n ← load temp
  (if n.next == null then pure temp else last_from fuel n.next)

unfoldable pub insert_at_end : ℕ → (fresh : Ptr) → Ptr → ℕ → Cmd ℕ Ptr
unfolding create_node last_from
insert_at_end fuel fresh head d = do
  new ← create_node fresh d
  (if head == null
      then pure new
      else (do temp ← last_from fuel head; set_next temp new; set_prev new temp; pure head))

-- The loop of `deleteNode`.
unfoldable pub value_from : ℕ → Ptr → ℕ → Cmd ℕ Ptr
value_from zero temp value = λ h. out_of_fuel
value_from (suc fuel) temp value =
    if temp == null
    then pure null
    else (do n ← load temp; (if n.value == value then pure temp else value_from fuel n.next value))

unfoldable pub delete_node : ℕ → Ptr → ℕ → Cmd ℕ Ptr
unfolding value_from
delete_node fuel head value = if head == null then pure head else (do
  temp ← value_from fuel head value
  (if temp == null
      then pure head
      else if temp == head
      then (do n ← load temp; set_prev_if n.next null; free temp; pure n.next)
      else (do
        n ← load temp
        set_next_if n.prev n.next
        n' ← load temp
        set_prev_if n'.next n'.prev
        free temp
        pure head)))

-- The numbers that `displayForward` prints.
unfoldable pub display_forward : ℕ → Ptr → Cmd ℕ (List ℕ)
display_forward zero temp = λ h. out_of_fuel
display_forward (suc fuel) temp =
    if temp == null
    then pure []
    else (do n ← load temp; rest ← display_forward fuel n.next; pure (n.value ∷ rest))

-- The second loop of `displayBackward`.
unfoldable pub backward_from : ℕ → Ptr → Cmd ℕ (List ℕ)
backward_from zero temp = λ h. out_of_fuel
backward_from (suc fuel) temp =
    if temp == null
    then pure []
    else (do n ← load temp; rest ← backward_from fuel n.prev; pure (n.value ∷ rest))

unfoldable pub display_backward : ℕ → Ptr → Cmd ℕ (List ℕ)
unfolding last_from backward_from
display_backward fuel head =
    if head == null then pure [] else (do temp ← last_from fuel head; backward_from fuel temp)
