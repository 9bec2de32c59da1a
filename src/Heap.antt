-- ===== src/Heap.antt =====
-- The memory in which the linked lists of the assignments keep their nodes (`struct list_node` of
-- simulatorlab-FreezeKickerz/linked_list.h and concurrency-project-FreezeKickerz/linked_list.h,
-- `struct Node` of homework-1-FreezeKickerz/linked_list.h), and the commands that work on it.
pub mod Access
pub mod Fresh
pub mod Linked
pub mod Returns
pub mod Splice
use cmpsc_473_operating_syst.Common.{ℕ, Option, none, some, ◌==◌, if◌then◌else◌}

abbrev pub Ptr : Type 0
Ptr = ℕ

abbrev pub null : Ptr
null = 0

-- `next`, `prev` and `data` of a node.
pub record Node (A : Type 0) : Type 0 where
  pub next : Ptr
  pub prev : Ptr
  pub value : A

abbrev pub Heap : Type 0 → Type 0
Heap A = Ptr → Option (Node A)

module _ {A : Type 0} where
  abbrev pub node : Ptr → Ptr → A → Node A
  node next prev value = record { next = next; prev = prev; value = value }

  abbrev pub write : Heap A → Ptr → Option (Node A) → Heap A
  write h p c a = if a == p then c else h a

-- A fault is a read or a write through NULL or through a pointer to no node.
pub data Run (A B : Type 0) : Type 0 where
  ok : B → Heap A → Run A B
  fault : Run A B
  out_of_fuel : Run A B

abbrev pub Cmd : Type 0 → Type 0 → Type 0
Cmd A B = Heap A → Run A B

module _ {A : Type 0} where
  abbrev pub pure : {B : Type 0} → B → Cmd A B
  pure = ok

  abbrev pub and_then : {B C : Type 0} → Run A B → (B → Cmd A C) → Run A C
  and_then (ok b h) k = k b h
  and_then fault k = fault
  and_then out_of_fuel k = out_of_fuel

  infixl 5 ◌>>=◌ ◌>>◌
  abbrev pub ◌>>=◌ : {B C : Type 0} → Cmd A B → (B → Cmd A C) → Cmd A C
  m >>= k = λ h. and_then (m h) k

  abbrev pub ◌>>◌ : {B C : Type 0} → Cmd A B → Cmd A C → Cmd A C
  m >> n = m >>= λ _. n

  abbrev pub store : Ptr → Option (Node A) → Cmd A (Unit {0})
  store p c h = ok tt (write h p c)

  unfoldable pub load : Ptr → Cmd A (Node A)
  load p h = if p == null then fault else elim (h p) [ none ↦ fault | some n ↦ ok n h ]

  -- `p->next = q` and `p->prev = q`
  unfoldable pub set_next : Ptr → Ptr → Cmd A (Unit {0})
  set_next p q = do n ← load p; store p (some (record n { next = q }))

  unfoldable pub set_prev : Ptr → Ptr → Cmd A (Unit {0})
  set_prev p q = do n ← load p; store p (some (record n { prev = q }))

  unfoldable pub free : Ptr → Cmd A (Unit {0})
  free p = load p >> store p none
