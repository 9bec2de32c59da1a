-- ===== src/Malloc/Tests.antt =====
-- Runs of the allocator, and the theorems at concrete heaps.
use cmpsc_473_operating_syst.Common.{
  ℕ, ◌+◌, ◌%◌, ◌≤◌, ◌<◌, ◌≡◌, refl, false, inr, arith, ◌⊎◌, Option, none, some, [], ◌∷◌,
}
use cmpsc_473_operating_syst.Memlib.{
  mm_sbrk, mm_heap_lo, mm_heap_hi, mm_heapsize, load_bytes, store_bytes, mem_read, mem_write,
}
use cmpsc_473_operating_syst.Malloc.{
  Mm, load, size_of, has_1, align, block_size_for, mm_init, malloc, search_from, search,
  remove_from_free_list, add_to_free_list, take_whole, split, extend,
}
use cmpsc_473_operating_syst.Malloc.Release.{free, coalesce, merge_prev, merge_next}
use cmpsc_473_operating_syst.Malloc.FreeList.{
  Linked, first_fit, block_size_for-Fits, search-first_fit,
}
use cmpsc_473_operating_syst.Malloc.Unlink.{remove_from_free_list-Linked}

abbrev bare : Mm
bare = record {
  lib = record { heap = 4096; mem_brk = 4096; mem_max_addr = 65536 };
  mem = λ a. 0;
  free_block_pointer = 0;
}

abbrev fresh : Mm
fresh = (mm_init bare).1

-- The one free block of a fresh heap, in front of the epilogue.
fresh-block :
    (fresh.free_block_pointer ≡ 4104) × (load fresh 4104 ≡ 4096 + 2) × (load fresh 8200 ≡ 1)
unfolding mm_init mm_sbrk mm_heap_hi mem_read mem_write load_bytes store_bytes
fresh-block = (refl, refl, refl)

abbrev pointer_of : Option (ℕ × Mm) → ℕ
pointer_of none = 0
pointer_of (some (p, s)) = p

abbrev heap_of : Option (ℕ × Mm) → Mm
heap_of none = bare
heap_of (some (p, s)) = s

-- A hundred bytes come from the end of the free block.
abbrev one : Option (ℕ × Mm)
one = malloc 100 fresh

one-pointer :
    (pointer_of one ≡ 8096)
    × (load (heap_of one) 8088 ≡ 112 + 1)
    × (load (heap_of one) 4104 ≡ 3984 + 2)
unfolding malloc search search_from block_size_for align take_whole split extend
    remove_from_free_list mm_heapsize mm_init mm_sbrk mm_heap_hi mem_read mem_write load_bytes
    store_bytes
one-pointer = (refl, refl, refl)

-- Freed again, they are merged with the rest.
abbrev again : Mm
again = free (pointer_of one) (heap_of one)

again-whole : (again.free_block_pointer ≡ 4104) × (size_of (load again 4104) ≡ 4096)
unfolding free coalesce merge_prev merge_next mm_heap_lo add_to_free_list malloc search search_from
    block_size_for align take_whole split extend remove_from_free_list mm_heapsize mm_init mm_sbrk
    mm_heap_hi mem_read mem_write load_bytes store_bytes
again-whole = (refl, refl)

block_size_for-Fits_example :
    let block = block_size_for 100 in
    (block % 16 ≡ 0) × (32 ≤ block) × (108 ≤ block) × ((block ≡ 32) ⊎ (block < 124))
block_size_for-Fits_example = block_size_for-Fits 100 (omega arith)

fresh-Linked : Linked fresh 0 4104 (4104 ∷ [])
unfolding mm_init mm_sbrk mm_heap_hi mem_read mem_write load_bytes store_bytes
fresh-Linked = (refl, omega arith, refl, refl)

fresh-pointer : fresh.free_block_pointer ≡ 4104
unfolding mm_init mm_sbrk
fresh-pointer = refl

fresh-heapsize : mm_heapsize fresh.lib ≡ 4112
unfolding mm_init mm_sbrk mm_heapsize
fresh-heapsize = refl

search-first_fit_example : search 112 fresh ≡ some (first_fit 112 fresh (4104 ∷ []))
search-first_fit_example =
    search-first_fit 112 fresh (4104 ∷ []) (rw fresh-pointer fresh-Linked)
      (omega (arith, fresh-heapsize))

abbrev two_blocks : Mm
two_blocks = add_to_free_list 8088 fresh

two_blocks-Linked : Linked two_blocks 0 two_blocks.free_block_pointer (8088 ∷ 4104 ∷ [])
unfolding add_to_free_list mm_init mm_sbrk mm_heap_hi mem_read mem_write load_bytes store_bytes
two_blocks-Linked = (refl, omega arith, refl, (refl, omega arith, refl, refl))

remove_from_free_list-Linked_example :
    let s = remove_from_free_list 4104 two_blocks in Linked s 0 s.free_block_pointer (8088 ∷ [])
remove_from_free_list-Linked_example =
    remove_from_free_list-Linked two_blocks (8088 ∷ []) 4104 [] two_blocks-Linked
      (omega arith, (inr (omega arith), tt), (omega arith, tt, tt))

-- Two blocks of 32 bytes at the end of the heap, freed from the last one on: the last one stays
-- alone, since its header is too near to the end for `coalesce`.
abbrev last_one : Option (ℕ × Mm)
last_one = malloc 24 fresh

abbrev last_two : Option (ℕ × Mm)
last_two = malloc 24 (heap_of last_one)

abbrev both_freed : Mm
both_freed = free (pointer_of last_two) (free (pointer_of last_one) (heap_of last_two))

both_freed-apart :
    (size_of (load both_freed 4104) ≡ 4064)
    × (size_of (load both_freed 8168) ≡ 32)
    × (has_1 (load both_freed 8168) ≡ false)
unfolding free coalesce merge_prev merge_next mm_heap_lo add_to_free_list malloc search search_from
    block_size_for align take_whole split extend remove_from_free_list mm_heapsize mm_init mm_sbrk
    mm_heap_hi mem_read mem_write load_bytes store_bytes
both_freed-apart = (refl, refl, refl)
