-- ===== src/Driver.antt =====
-- assignment-2-malloclab-FreezeKickerz/mdriver.c: what the driver of the allocator keeps of the blocks
-- that it asks for, and the bytes that it puts into them. A message is not kept, only that there was
-- one: the checks answer false.
pub mod Fill
pub mod Trace
mod Placed
mod Tests
use cmpsc_473_operating_syst.Common.{
  ℕ, zero, suc, ◌+◌, ◌-◌, ◌*◌, ◌%◌, ◌^◌, Bool, true, false, ◌&&◌, ◌||◌, not, Option, none, some,
  ltb, leb, ◌==◌, if◌then◌else◌,
}
use cmpsc_473_operating_syst.Memlib.{
  ℤ, pos, negsuc, MemLib, Memory, mm_heap_lo, mm_heap_hi, mem_read, mem_write,
}
use cmpsc_473_operating_syst.SplayTree.{
  TreeT, tree_new, tree_insert, tree_find_nearest, tree_remove,
}

pub data DebugMode : Type 0 where
  dbg_none dbg_cheap dbg_expensive : DebugMode

abbrev pub is_none : DebugMode → Bool
is_none dbg_none = true
is_none dbg_cheap = false
is_none dbg_expensive = false

-- `range_t`; a pointer is 0 for NULL.
pub record RangeT : Type 0 where
  pub lo : ℕ
  pub hi : ℕ
  pub index : ℤ
  pub next : ℕ
  pub prev : ℕ

-- `range_set_t`, with the records that its pointers lead to.
pub record RangeSet : Type 0 where
  pub list : ℕ
  pub lo_tree : TreeT ℕ
  pub cells : ℕ → Option RangeT

-- A record written at an address, taken away, or changed if it is there.
abbrev pub with_cell : ℕ → Option RangeT → RangeSet → RangeSet
with_cell p r s = record s { cells = λ a. if a == p then r else s.cells a }

abbrev pub set_next : ℕ → ℕ → RangeSet → RangeSet
set_next p q s = elim (s.cells p) [
  | none ↦ s
  | some r ↦ with_cell p (some (record r { next = q })) s
]

abbrev pub set_prev : ℕ → ℕ → RangeSet → RangeSet
set_prev p q s = elim (s.cells p) [
  | none ↦ s
  | some r ↦ with_cell p (some (record r { prev = q })) s
]

unfoldable pub new_range_set : RangeSet
unfolding tree_new
new_range_set = record { list = 0; lo_tree = tree_new; cells = λ a. none }

-- The records are freed, and nothing leads to them.
unfoldable pub reset_range_set : RangeSet → RangeSet
unfolding tree_new
reset_range_set ranges = record { list = 0; lo_tree = tree_new; cells = λ a. none }

-- Whether a payload is not aligned, or not in the heap.
abbrev pub misplaced : MemLib → ℕ → ℕ → Bool
misplaced lib lo hi =
    not (lo % 16 == 0)
    || ltb lo (mm_heap_lo lib)
    || ltb (mm_heap_hi lib) lo
    || ltb hi (mm_heap_lo lib)
    || ltb (mm_heap_hi lib) hi

-- Whether the range before the payload, or the one behind it, overlaps it.
abbrev pub overlaps_prev : RangeSet → ℕ → ℕ → Bool
overlaps_prev s prev lo = elim (s.cells prev) [ none ↦ false | some r ↦ leb lo r.hi ]

abbrev pub overlaps_next : RangeSet → ℕ → ℕ → Bool
overlaps_next s next hi = elim (s.cells next) [ none ↦ false | some r ↦ leb r.lo hi ]

-- `prev ? prev->next : NULL`
abbrev pub next_of : RangeSet → ℕ → ℕ
next_of s prev = elim (s.cells prev) [ none ↦ 0 | some r ↦ r.next ]

-- The record `p` between the two.
unfoldable pub link_range : RangeSet → (p lo hi : ℕ) → ℤ → (prev next : ℕ) → RangeSet
unfolding tree_insert
link_range s p lo hi index prev next =
    let r : RangeT = record { lo = lo; hi = hi; index = index; next = next; prev = prev } in
    let s1 = with_cell p (some r) s in
    let s2 = if prev == 0 then record s1 { list = p } else set_next prev p s1 in
    let s3 = if next == 0 then s2 else set_prev next p s2 in
    record s3 { lo_tree = (tree_insert s3.lo_tree lo p).1 }

abbrev pub pointer_or_null : Option ℕ → ℕ
pointer_or_null none = 0
pointer_or_null (some p) = p

-- `p` is the address that `malloc` gives for the record; the program ends where it gives none.
unfoldable pub add_range :
    DebugMode → MemLib → (p : ℕ) → RangeSet → (lo size : ℕ) → ℤ → Bool × RangeSet
unfolding tree_find_nearest link_range mm_heap_lo mm_heap_hi
add_range mode lib p ranges lo size index =
    let hi = lo + size - 1 in
    let (found, tree) = tree_find_nearest ranges.lo_tree lo in
    let prev = pointer_or_null found in
    let s = record ranges { lo_tree = tree } in
    let next = next_of s prev in
    if misplaced lib lo hi
    then (false, ranges)
    else if is_none mode
    then (true, ranges)
    else if overlaps_prev s prev lo || overlaps_next s next hi
    then (false, s)
    else (true, link_range s p lo hi index prev next)

-- `p` and its neighbours.
abbrev pub unlink_range : RangeSet → ℕ → RangeSet
unlink_range s p = elim (s.cells p) [
  | none ↦ s
  | some r ↦
      let s1 = if r.prev == 0 then record s { list = r.next } else set_next r.prev r.next s in
      let s2 = if r.next == 0 then s1 else set_prev r.next r.prev s1 in with_cell p none s2
]

unfoldable pub remove_range : RangeSet → ℕ → RangeSet
unfolding tree_remove
remove_range ranges lo =
    let (found, tree) = tree_remove ranges.lo_tree lo in
    let s = record ranges { lo_tree = tree } in elim found [ none ↦ s | some p ↦ unlink_range s p ]

-- `trace_t`, without the requests, and the number of calls of `random` so far.
pub record TraceT : Type 0 where
  pub blocks : ℕ → ℕ
  pub block_sizes : ℕ → ℕ
  pub block_rand_base : ℕ → ℕ
  pub drawn : ℕ

abbrev pub at_index : ℕ → ℕ → (ℕ → ℕ) → ℕ → ℕ
at_index i v f j = if j == i then v else f j

unfoldable pub reinit_trace : TraceT → TraceT
reinit_trace t = record t { blocks = λ i. 0; block_sizes = λ i. 0 }

-- How many bytes are checked at the front of a block, how many at its end, and from where on.
unfoldable pub fill_sizes : (maxfill size : ℕ) → ℕ × ℕ × ℕ
fill_sizes maxfill size =
    if ltb maxfill size
    then (if ltb (2 * maxfill) size
        then (maxfill, maxfill, size - maxfill)
        else (maxfill, size - maxfill, maxfill))
    else (size, 0, 0)

module _ (random_data : ℕ → ℕ) where
  -- The `n` bytes from the `i`-th on.
  unfoldable pub fill : (n i block base : ℕ) → Memory → Memory
  fill zero i block base mem = mem
  fill (suc n) i block base mem =
      fill n (i + 1) block base (mem_write mem (block + i) (random_data ((base + i) % 2 ^ 16)) 1)

  -- How many of them are others.
  unfoldable pub garbled : (n i block base : ℕ) → Memory → ℕ
  garbled zero i block base mem = 0
  garbled (suc n) i block base mem =
      let rest = garbled n (i + 1) block base mem in
      if mem_read mem (block + i) 1 == random_data ((base + i) % 2 ^ 16) then rest else rest + 1

  -- `random` is the sequence of the numbers that it gives.
  unfoldable pub randomize_block :
      DebugMode → (maxfill : ℕ) → (random : ℕ → ℕ) → TraceT → ℕ → Memory → TraceT × Memory
  unfolding fill fill_sizes
  randomize_block dbg_none maxfill random t index mem = (t, mem)
  randomize_block mode maxfill random t index mem =
      let base = random t.drawn in
      let t' = record t {
        block_rand_base = at_index index base t.block_rand_base;
        drawn = t.drawn + 1;
      } in
      let block = t.blocks index in
      let (fsize, fsize_end, offset) = fill_sizes maxfill (t.block_sizes index) in
      (t', fill fsize_end 0 (block + offset) base (fill fsize 0 block base mem))

  unfoldable pub check_index :
      DebugMode → (maxfill : ℕ) → TraceT → ℤ → (is_realloc : Bool) → Memory → Bool
  unfolding garbled fill_sizes
  check_index mode maxfill t (negsuc n) is_realloc mem = true
  check_index dbg_none maxfill t (pos index) is_realloc mem = true
  check_index mode maxfill t (pos index) is_realloc mem =
      let block = t.blocks index in
      let base = t.block_rand_base index in
      let (fsize, fsize_end, offset) = fill_sizes maxfill (t.block_sizes index) in
      let at_end = if is_realloc then 0 else garbled fsize_end 0 (block + offset) base mem in
      garbled fsize 0 block base mem + at_end == 0
