-- ===== src/Driver/Tests.antt =====
-- Runs of the driver, and the theorems at concrete blocks.
use cmpsc_473_operating_syst.Common.{
  ℕ, ◌+◌, ◌-◌, ◌%◌, ◌≡◌, ◌<◌, refl, arith, ◌⊎◌, Bool, true, false, Option, some, none, List, [],
  ◌∷◌,
}
use cmpsc_473_operating_syst.Memlib.{
  pos, negsuc, mm_sbrk, mm_heap_lo, mm_heap_hi, mm_heapsize, mem_reset_brk, mem_heapsize,
  load_bytes, store_bytes, mem_read, mem_write, mm_memcpy, copy_words,
}
use cmpsc_473_operating_syst.SplayTree.{
  tree_new, tree_insert, find_place, insert_at, splay, plug, left_rotate, right_rotate,
  tree_find_nearest, nearest_in, nearer, entry_of, tree_remove, seek, remove_at, remove_root,
  take_minimum,
}
use cmpsc_473_operating_syst.Malloc.{
  align, block_size_for, mm_init, malloc, search_from, search, remove_from_free_list,
  add_to_free_list, take_whole, split, extend,
}
use cmpsc_473_operating_syst.Malloc.Release.{free, realloc, coalesce, merge_prev, merge_next}
use cmpsc_473_operating_syst.Driver.{
  dbg_cheap, dbg_expensive, RangeT, RangeSet, TraceT, new_range_set, reset_range_set, add_range,
  link_range, remove_range, reinit_trace, fill_sizes, fill, garbled, randomize_block, check_index,
  misplaced,
}
use cmpsc_473_operating_syst.Malloc.HeapTests.{bare, fresh, one_block, fresh-IsHeap, one}
use cmpsc_473_operating_syst.Driver.Placed.{malloc-misplaced}
use cmpsc_473_operating_syst.Driver.Fill.{check_index-randomize_block}
use cmpsc_473_operating_syst.Driver.Trace.{
  TraceOp, alloc, release, resize, Verdict, valid, invalid, aborted, Driver, Setting, Usage,
  eval_mm_valid, replay, do_op, do_alloc, do_resize, do_release, check_ranges, eval_mm_util,
  util_ops, util_op,
}

abbrev new_trace : TraceT
new_trace = record { blocks = λ i. 0; block_sizes = λ i. 0; block_rand_base = λ i. 0; drawn = 0 }

-- Records stand at 1, 2 and so on.
abbrev first_unused : (ℕ → Option RangeT) → ℕ
first_unused cells = elim (cells 1) [ none ↦ 1 | some r ↦ elim (cells 2) [ none ↦ 2 | some r ↦ 3 ] ]

abbrev setting : Setting
setting = record {
  mode = dbg_expensive;
  maxfill = 2;
  random_data = λ k. k % 251;
  random = λ k. k + 7;
  new_record = first_unused;
}

abbrev idle : Driver
idle = record { mm = bare; trace = new_trace; ranges = new_range_set }

abbrev requests : List TraceOp
requests =
    alloc 0 20
    ∷ alloc 1 40
    ∷ resize 0 60
    ∷ release (pos 1)
    ∷ release (negsuc 0)
    ∷ release (pos 0)
    ∷ []

abbrev passes : Verdict Driver → Bool
passes (valid d) = true
passes invalid = false
passes aborted = false

requests_pass : passes (eval_mm_valid setting requests idle) ≡ true
unfolding eval_mm_valid replay do_op do_alloc do_resize do_release check_ranges reset_range_set
    reinit_trace new_range_set add_range link_range remove_range fill_sizes fill garbled
    randomize_block check_index tree_new tree_insert find_place insert_at splay plug left_rotate
    right_rotate tree_find_nearest nearest_in nearer entry_of tree_remove seek remove_at remove_root
    take_minimum free realloc coalesce merge_prev merge_next mm_heap_lo mm_memcpy copy_words
    add_to_free_list malloc search search_from block_size_for align take_whole split extend
    remove_from_free_list mm_heapsize mm_init mm_sbrk mem_reset_brk mm_heap_hi mem_read mem_write
    load_bytes store_bytes
requests_pass = refl

abbrev usage : Verdict Usage → ℕ × ℕ
usage (valid u) = (u.max_total_size, u.max_heap_size)
usage invalid = (0, 0)
usage aborted = (0, 0)

requests_need : usage (eval_mm_util requests bare new_trace) ≡ (100, 4112)
unfolding eval_mm_util util_ops util_op mem_heapsize reinit_trace free realloc coalesce merge_prev
    merge_next mm_heap_lo mm_memcpy copy_words add_to_free_list malloc search search_from
    block_size_for align take_whole split extend remove_from_free_list mm_heapsize mm_init mm_sbrk
    mem_reset_brk mm_heap_hi mem_read mem_write load_bytes store_bytes
requests_need = refl

one-malloc : malloc 100 fresh ≡ some (8096, one)
unfolding malloc search search_from block_size_for align take_whole split extend
    remove_from_free_list mm_heapsize mm_init mm_sbrk mm_heap_hi mem_read mem_write load_bytes
    store_bytes
one-malloc = refl

malloc-misplaced_example : (◌≡◌ {A = ℕ} 8096 0) ⊎ (misplaced one.lib 8096 (8096 + 100 - 1) ≡ false)
malloc-misplaced_example =
    malloc-misplaced 100 fresh one_block (4104 ∷ []) 8096 one fresh-IsHeap (omega arith)
      (omega arith) one-malloc

abbrev data_at : ℕ → ℕ
data_at k = k % 251

data_at_small : (k : ℕ) → data_at k < 256
data_at_small k = omega arith

-- A block of 20 bytes at 8096, of which the first 4 and the last 4 are filled.
abbrev block_trace : TraceT
block_trace = record {
  blocks = λ i. 8096;
  block_sizes = λ i. 20;
  block_rand_base = λ i. 0;
  drawn = 0;
}

check_index-randomize_block_example :
    let (t', mem) =
      randomize_block data_at dbg_cheap 4 (λ k. k + 65530) block_trace 3 (λ (a : ℕ). 0) in
    check_index data_at dbg_cheap 4 t' (pos 3) false mem ≡ true
check_index-randomize_block_example =
    check_index-randomize_block data_at dbg_cheap 4 (λ k. k + 65530) block_trace 3 (λ (a : ℕ). 0)
      (randomize_block data_at dbg_cheap 4 (λ k. k + 65530) block_trace 3 (λ (a : ℕ). 0)).1 false
      data_at_small (λ a low high. refl)

block_filled :
    let mem =
      (randomize_block data_at dbg_cheap 4 (λ k. k + 65530) block_trace 3 (λ (a : ℕ). 0)).1 in
    (mem 8096 ≡ 65530 % 251) × (mem 8100 ≡ 0) × (mem 8112 ≡ 65530 % 251)
unfolding randomize_block fill fill_sizes mem_write store_bytes
block_filled = (refl, refl, refl)

-- A payload below all ranges is not compared with the first of them, and the list loses them.
abbrev first_range : RangeSet
first_range = (add_range dbg_cheap one.lib 1 new_range_set 4208 16 (pos 0)).1

abbrev second_range : Bool × RangeSet
second_range = add_range dbg_cheap one.lib 2 first_range 4128 200 (pos 1)

abbrev next_in : RangeSet → ℕ → ℕ
next_in s p = elim (s.cells p) [ none ↦ 0 | some r ↦ r.next ]

second_range-overlaps :
    (first_range.list ≡ 1)
    × (second_range.0 ≡ true)
    × (second_range.1.list ≡ 2)
    × (next_in second_range.1 2 ≡ 0)
unfolding add_range link_range new_range_set tree_new tree_insert find_place insert_at splay plug
    left_rotate right_rotate tree_find_nearest nearest_in nearer entry_of mm_heap_lo mm_heap_hi
    malloc search search_from block_size_for align take_whole split extend remove_from_free_list
    mm_heapsize mm_init mm_sbrk mem_read mem_write load_bytes store_bytes
second_range-overlaps = (refl, refl, refl, refl)
