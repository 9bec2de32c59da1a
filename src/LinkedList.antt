-- ===== src/LinkedList.antt =====
-- simulatorlab-FreezeKickerz/linked_list.h and linked_list.c: the doubly linked list, ordered by a
-- comparison or filled at its head. A `list_t` is a value beside the heap of its nodes, and a
-- function that changes it returns the new one; a `list_t*` that may be NULL is an `Option`.
pub mod Cells
pub mod Insert
pub mod Remove
pub mod Splice
mod Tests
pub mod Walk
use cmpsc_473_operating_syst.Common.{
  ℕ, zero, suc, ◌+◌, ◌-◌, Bool, true, false, Option, none, some, ◌==◌, if◌then◌else◌,
}
use cmpsc_473_operating_syst.Heap.{
  Ptr, null, node, Cmd, out_of_fuel, pure, ◌>>=◌, ◌>>◌, store, load, set_next, set_prev, free,
}
use cmpsc_473_operating_syst.Heap.Splice.{set_next_if, set_prev_if}

-- The answer of a `compare_fn`: negative, zero or positive.
pub data Compared : Type 0 where
  before same after : Compared

abbrev pub CompareFn : Type 0 → Type 0
CompareFn A = A → A → Compared

-- `list_t`; `compare` is `none` for NULL.
pub record ListT (A : Type 0) : Type 0 where
  pub head : Ptr
  pub tail : Ptr
  pub count : ℕ
  pub compare : Option (CompareFn A)

module _ {A : Type 0} where
  -- `memory` says whether `malloc` gives the structure.
  unfoldable pub list_create : (memory : Bool) → Option (CompareFn A) → Option (ListT A)
  list_create memory compare =
      if memory
      then some (record { head = null; tail = null; count = 0; compare = compare })
      else none

  -- The loop of `list_destroy`.
  pub destroy_from : ℕ → Ptr → Cmd A (Unit {0})
  destroy_from zero cur = λ _. out_of_fuel
  destroy_from (suc fuel) cur =
      if cur == null then pure tt else do n ← load cur; free cur; destroy_from fuel n.next

  unfoldable pub list_destroy : Option (ListT A) → Cmd A (Unit {0})
  unfolding destroy_from
  list_destroy none = pure tt
  list_destroy (some l) = destroy_from (l.count + 1) l.head

  unfoldable pub list_head : Option (ListT A) → Ptr
  list_head none = null
  list_head (some l) = l.head

  unfoldable pub list_tail : Option (ListT A) → Ptr
  list_tail none = null
  list_tail (some l) = l.tail

  unfoldable pub list_next : Ptr → Cmd A Ptr
  list_next p = if p == null then pure null else do n ← load p; pure n.next

  unfoldable pub list_prev : Ptr → Cmd A Ptr
  list_prev p = if p == null then pure null else do n ← load p; pure n.prev

  unfoldable pub list_end : Option (ListT A) → Ptr
  list_end none = null
  list_end (some l) = l.tail

  -- `none` is the NULL that it returns for a NULL node.
  unfoldable pub list_data : Ptr → Cmd A (Option A)
  list_data p = if p == null then pure none else do n ← load p; pure (some n.value)

  unfoldable pub list_count : Option (ListT A) → ℕ
  list_count none = 0
  list_count (some l) = l.count

  -- The loop of `list_find`; `is` is the equality of the data pointers.
  pub find_from : (is : A → A → Bool) → ℕ → Ptr → A → Cmd A Ptr
  find_from is zero cur d = λ _. out_of_fuel
  find_from is (suc fuel) cur d =
      if cur == null
      then pure null
      else do n ← load cur; if is n.value d then pure cur else find_from is fuel n.next d

  unfoldable pub list_find : (is : A → A → Bool) → Option (ListT A) → A → Cmd A Ptr
  unfolding find_from
  list_find is none d = pure null
  list_find is (some l) d = find_from is (l.count + 1) l.head d

  abbrev pub goes_before : CompareFn A → A → A → Bool
  goes_before compare x d = elim (compare x d) [ before ↦ true | _ ↦ false ]

  -- The loop of `list_insert`: the first node whose data does not go before `d`.
  pub slot_from : CompareFn A → ℕ → Ptr → A → Cmd A Ptr
  slot_from compare zero curr d = λ _. out_of_fuel
  slot_from compare (suc fuel) curr d = if curr == null then pure null else do
    n ← load curr
    if goes_before compare n.value d then slot_from compare fuel n.next d else pure curr

  -- `if (list->compare == NULL || list->head == NULL)`
  pub insert_at_head : Ptr → ListT A → Cmd A (ListT A)
  insert_at_head new l = do
    set_next new l.head
    set_prev_if l.head new
    pure (record l { head = new; tail = if l.head == null then new else l.tail })

  -- `if (curr == NULL)`
  pub append_at_tail : Ptr → ListT A → Cmd A (ListT A)
  append_at_tail new l = do set_prev new l.tail; set_next l.tail new; pure (record l { tail = new })

  -- `else`: insert before `curr`
  pub insert_before : Ptr → Ptr → ListT A → Cmd A (ListT A)
  insert_before curr new l = do
    set_next new curr
    c ← load curr
    set_prev new c.prev
    set_next_if c.prev new
    set_prev curr new
    pure (record l { head = if c.prev == null then new else l.head })

  pub place : Option (CompareFn A) → Ptr → A → ListT A → Cmd A (ListT A)
  unfolding insert_at_head append_at_tail insert_before slot_from
  place none new d l = insert_at_head new l
  place (some compare) new d l = if l.head == null then insert_at_head new l else do
    curr ← slot_from compare (l.count + 1) l.head d
    if curr == null then append_at_tail new l else insert_before curr new l

  -- `fresh` is what `malloc` returns.
  unfoldable pub list_insert : (fresh : Ptr) → Option (ListT A) → A → Cmd A (Ptr × Option (ListT A))
  unfolding place
  list_insert fresh none d = pure (null, none)
  list_insert fresh (some l) d = if fresh == null then pure (null, some l) else do
    store fresh (some (node null null d))
    l' ← place l.compare fresh d l
    pure (fresh, some (record l' { count = l'.count + 1 }))

  unfoldable pub list_remove : Option (ListT A) → Ptr → Cmd A (Option (ListT A))
  list_remove none p = pure none
  list_remove (some l) p = if p == null then pure (some l) else do
    n ← load p
    set_next_if n.prev n.next
    n' ← load p
    set_prev_if n'.next n'.prev
    set_next p null
    set_prev p null
    free p
    pure (
        some (record l {
          head = if p == l.head then n.next else l.head;
          tail = if p == l.tail then n.prev else l.tail;
          count = l.count - 1;
        }))
