-- ===== src/Malloc/HeapTests.antt =====
-- The theorems on whole heaps at concrete ones, and a run in which free reads a mark that is wrong.
use cmpsc_473_operating_syst.Common.{
  ℕ, ◌+◌, ◌<◌, ◌≡◌, refl, arith, ◌⊎◌, true, false, [], ◌∷◌, some, none, Option,
}
use cmpsc_473_operating_syst.Memlib.{
  mm_sbrk, mm_heap_lo, mm_heap_hi, mm_heapsize, load_bytes, store_bytes, mem_read, mem_write,
}
use cmpsc_473_operating_syst.Malloc.{
  Mm, load, align, block_size_for, mm_init, malloc, search_from, search, remove_from_free_list,
  add_to_free_list, take_whole, split, extend,
}
use cmpsc_473_operating_syst.Malloc.Release.{free, coalesce, merge_prev, merge_next}
use cmpsc_473_operating_syst.Malloc.Blocks.{vacant, used, Row}
use cmpsc_473_operating_syst.Malloc.Invariant.{IsHeap}
use cmpsc_473_operating_syst.Malloc.Init.{mm_init-IsHeap}
use cmpsc_473_operating_syst.Malloc.Answers.{Refused, Granted}
use cmpsc_473_operating_syst.Malloc.Allocate.{malloc-Granted}
use cmpsc_473_operating_syst.Malloc.Joining.{Joins}
use cmpsc_473_operating_syst.Malloc.Reclaim.{free-Joins}

abbrev pub bare : Mm
bare = record {
  lib = record { heap = 4096; mem_brk = 4096; mem_max_addr = 65536 };
  mem = λ a. 0;
  free_block_pointer = 0;
}

mm_init-IsHeap_example :
    ((65536 < 4096 + 4112) × (mm_init bare ≡ (false, bare)))
    ⊎ ((s : Mm) × ((mm_init bare ≡ (true, s)) × IsHeap s (vacant 4096 ∷ []) ((4096 + 8) ∷ [])))
mm_init-IsHeap_example = mm_init-IsHeap bare refl (omega arith) refl (omega arith)

abbrev pub fresh : Mm
fresh = (mm_init bare).1

abbrev pub one_block : Row
one_block = vacant 4096 ∷ []

pub fresh-IsHeap : IsHeap fresh one_block (4104 ∷ [])
unfolding mm_init mm_sbrk mm_heap_hi mem_read mem_write load_bytes store_bytes
fresh-IsHeap = record {
  fits = (omega arith, refl, refl, omega arith, omega arith);
  runs = ((((omega arith, refl), refl, refl), tt), refl);
  linked = (refl, omega arith, refl, refl);
  placed = (omega arith, tt, tt);
  same = λ x. (λ i. i, λ i. i);
  counted = refl;
}

malloc-Granted_example :
    (p : ℕ) × (s : Mm) × ((malloc 100 fresh ≡ some (p, s))
      × (Refused 100 fresh (4104 ∷ []) p s ⊎ Granted 100 fresh one_block p s))
malloc-Granted_example =
    malloc-Granted 100 fresh one_block (4104 ∷ []) fresh-IsHeap (omega arith) (omega arith)

abbrev pub pointer_of : Option (ℕ × Mm) → ℕ
pointer_of none = 0
pointer_of (some (p, s)) = p

abbrev pub heap_of : Option (ℕ × Mm) → Mm
heap_of none = bare
heap_of (some (p, s)) = s

abbrev pub one : Mm
one = heap_of (malloc 100 fresh)

abbrev bytes : ℕ → ℕ
bytes i = one.mem (4104 + 3984 + 8 + i)

one-IsHeap : IsHeap one (vacant 3984 ∷ used 112 bytes ∷ []) (4104 ∷ [])
unfolding malloc search search_from block_size_for align take_whole split extend
    remove_from_free_list mm_heapsize mm_init mm_sbrk mm_heap_hi mem_read mem_write load_bytes
    store_bytes
one-IsHeap = record {
  fits = (omega arith, refl, refl, omega arith, omega arith);
  runs = (
    (((omega arith, refl), refl, refl), (((omega arith, refl), refl, λ i small. refl), tt)),
    refl,
  );
  linked = (refl, omega arith, refl, refl);
  placed = (omega arith, tt, tt);
  same = λ x. (λ i. i, λ i. i);
  counted = refl;
}

one-start : one.lib.heap ≡ 4096
unfolding malloc search search_from block_size_for align take_whole split extend
    remove_from_free_list mm_heapsize mm_init mm_sbrk mm_heap_hi mem_read mem_write load_bytes
    store_bytes
one-start = refl

free-Joins_example :
    Joins one.lib (vacant 3984 ∷ []) 112 [] (free (one.lib.heap + 8 + 3984 + 8) one)
free-Joins_example = free-Joins one (vacant 3984 ∷ []) 112 bytes [] (4104 ∷ []) one-IsHeap tt

-- The last block of the heap, freed while the block before it is allocated, stays apart when that one
-- is freed as well. A block behind the two, from a heap that has grown, is merged with it and gets the
-- mark of a block behind an allocated one. When the first of the two is allocated again the mark is
-- toggled, and says that it is free. Freed now, the block takes the allocated one before it in, and a
-- later request gets the bytes of that one, which is in use.
abbrev two_free : Mm
two_free = free 8144 (free 8176 (heap_of (malloc 24 (heap_of (malloc 24 fresh)))))

abbrev wrong_mark : Mm
wrong_mark = free 8208 (heap_of (malloc 5000 two_free))

abbrev all_taken : Mm
all_taken = heap_of (malloc 4056 (heap_of (malloc 5032 wrong_mark)))

abbrev overlapping : Mm
overlapping = free 8176 all_taken

wrong_mark_lem : (load wrong_mark 8168 ≡ 5040 + 2) × (load wrong_mark 4104 ≡ 4064 + 2)
unfolding free coalesce merge_prev merge_next mm_heap_lo add_to_free_list malloc search search_from
    block_size_for align take_whole split extend remove_from_free_list mm_heapsize mm_init mm_sbrk
    mm_heap_hi mem_read mem_write load_bytes store_bytes
wrong_mark_lem = (refl, refl)

overlapping_lem :
    (pointer_of (malloc 4056 (heap_of (malloc 5032 wrong_mark))) ≡ 4112)
    × (load all_taken 4104 ≡ 4064 + 1 + 2)
    × (load overlapping 4104 ≡ 9104 + 2)
    × (pointer_of (malloc 9080 overlapping) ≡ 4112)
unfolding free coalesce merge_prev merge_next mm_heap_lo add_to_free_list malloc search search_from
    block_size_for align take_whole split extend remove_from_free_list mm_heapsize mm_init mm_sbrk
    mm_heap_hi mem_read mem_write load_bytes store_bytes
overlapping_lem = (refl, refl, refl, refl)
