-- ===== src/AppendList.antt =====
-- concurrency-project-FreezeKickerz/linked_list.h and linked_list.c: the doubly linked list to which
-- nodes are appended. A `list_t` is a value beside the heap of its nodes, as in LinkedList.
pub mod Append
pub mod Unlink
mod Tests
use cmpsc_473_operating_syst.Common.{
  ℕ, zero, suc, ◌+◌, ◌-◌, ◌%◌, ◌^◌, Bool, Option, none, some, ◌==◌, if◌then◌else◌,
}
use cmpsc_473_operating_syst.Heap.{
  Ptr, null, node, Cmd, out_of_fuel, pure, ◌>>=◌, ◌>>◌, store, load, free,
}
use cmpsc_473_operating_syst.Heap.Splice.{set_next_if, set_prev_if}

-- `list_t`
pub record ListT : Type 0 where
  pub head : Ptr
  pub tail : Ptr
  pub count : ℕ

-- `memory` says whether `malloc` gives the structure.
unfoldable pub list_create : (memory : Bool) → Option ListT
list_create memory = if memory then some (record { head = null; tail = null; count = 0 }) else none

unfoldable pub list_head : Option ListT → Ptr
list_head none = null
list_head (some l) = l.head

unfoldable pub list_tail : Option ListT → Ptr
list_tail none = null
list_tail (some l) = l.tail

unfoldable pub list_end : Option ListT → Ptr
list_end none = null
list_end (some l) = l.tail

unfoldable pub list_count : Option ListT → ℕ
list_count none = 0
list_count (some l) = l.count

module _ {A : Type 0} where
  -- The loop of `list_destroy`.
  unfoldable pub destroy_from : ℕ → Ptr → Cmd A (Unit {0})
  destroy_from zero cur = λ _. out_of_fuel
  destroy_from (suc fuel) cur =
      if cur == null then pure tt else do n ← load cur; free cur; destroy_from fuel n.next

  unfoldable pub list_destroy : Option ListT → Cmd A (Unit {0})
  unfolding destroy_from
  list_destroy none = pure tt
  list_destroy (some l) = destroy_from (l.count + 1) l.head

  unfoldable pub list_next : Ptr → Cmd A Ptr
  list_next p = if p == null then pure null else do n ← load p; pure n.next

  unfoldable pub list_prev : Ptr → Cmd A Ptr
  list_prev p = if p == null then pure null else do n ← load p; pure n.prev

  -- `none` is the NULL that it returns for a NULL node.
  unfoldable pub list_data : Ptr → Cmd A (Option A)
  list_data p = if p == null then pure none else do n ← load p; pure (some n.value)

  -- The loop of `list_find`; `is` is the equality of the data pointers.
  unfoldable pub find_from : (is : A → A → Bool) → ℕ → Ptr → A → Cmd A Ptr
  find_from is zero cur d = λ _. out_of_fuel
  find_from is (suc fuel) cur d =
      if cur == null
      then pure null
      else do n ← load cur; if is n.value d then pure cur else find_from is fuel n.next d

  unfoldable pub list_find : (is : A → A → Bool) → Option ListT → A → Cmd A Ptr
  unfolding find_from
  list_find is none d = pure null
  list_find is (some l) d = find_from is (l.count + 1) l.head d

  -- `fresh` is what `malloc` returns.
  unfoldable pub list_insert : (fresh : Ptr) → Option ListT → A → Cmd A (Ptr × Option ListT)
  list_insert fresh none d = pure (null, none)
  list_insert fresh (some l) d = if fresh == null then pure (null, some l) else do
    store fresh (some (node null l.tail d))
    set_next_if l.tail fresh
    pure (
      fresh,
      some (record {
        head = if l.tail == null then fresh else l.head;
        tail = fresh;
        count = l.count + 1;
      }),
    )

  unfoldable pub list_remove : Option ListT → Ptr → Cmd A (Option ListT)
  list_remove none p = pure none
  list_remove (some l) p = if p == null then pure (some l) else do
    n ← load p
    set_next_if n.prev n.next
    n' ← load p
    set_prev_if n'.next n'.prev
    free p
    pure (
        some (record {
          head = if p == l.head then n.next else l.head;
          tail = if p == l.tail then n.prev else l.tail;
          count = l.count - 1;
        }))
