-- ===== src/Malloc.antt =====
-- assignment-2-malloclab-FreezeKickerz/mm.c: the allocator over the bytes of Memlib. The name of a
-- block is the address of its header; `size_t` arithmetic wraps.
pub mod Release
mod FreeList
mod Unlink
pub mod Blocks
mod Vacancies
mod Closed
mod Around
pub mod Invariant
mod Members
mod Relink
mod Vacant
mod Take
mod Carve
mod Extend
pub mod Answers
pub mod Allocate
mod Freed
mod Listed
mod Region
mod Merges
mod Coalesce
mod Neighbours
mod Both
pub mod Joining
pub mod Reclaim
pub mod Init
pub mod HeapTests
mod Tests
use cmpsc_473_operating_syst.Common.{
  ℕ, zero, suc, ◌+◌, ◌-◌, ◌*◌, ◌/◌, ◌%◌, ◌^◌, Bool, true, false, ◌&&◌, ◌||◌, not, Option, none,
  some, ltb, leb, ◌==◌, if◌then◌else◌,
}
use cmpsc_473_operating_syst.Memlib.{
  ℤ, pos, negsuc, MemLib, Memory, mm_sbrk, mm_heap_lo, mm_heap_hi, mm_heapsize, mem_read, mem_write,
  mm_memcpy, mm_memset,
}

-- The memory system, its bytes, and the global variable.
pub record Mm : Type 0 where
  pub lib : MemLib
  pub mem : Memory
  pub free_block_pointer : ℕ

-- A word at an address, read or written.
abbrev pub load : Mm → ℕ → ℕ
load s a = mem_read s.mem a 8

abbrev pub put : Mm → ℕ → ℕ → Mm
put s a v = record s { mem = mem_write s.mem a v 8 }

-- The fields of a `Block`: `size_node` stands at the address itself.
abbrev pub next_node : ℕ → ℕ
next_node block = block + 8

abbrev pub prev_node : ℕ → ℕ
prev_node block = block + 16

-- `x & 1`, `x & 2`, as tests; `x & ~3`, `x & ~1`, `x & ~2`, `x | 1`, `x ^ 2`.
abbrev pub has_1 : ℕ → Bool
has_1 x = x % 2 == 1

abbrev pub has_2 : ℕ → Bool
has_2 x = x / 2 % 2 == 1

abbrev pub size_of : ℕ → ℕ
size_of x = x - x % 4

abbrev pub without_1 : ℕ → ℕ
without_1 x = x - x % 2

abbrev pub without_2 : ℕ → ℕ
without_2 x = if has_2 x then x - 2 else x

abbrev pub with_1 : ℕ → ℕ
with_1 x = if has_1 x then x else x + 1

abbrev pub toggle_2 : ℕ → ℕ
toggle_2 x = if has_2 x then x - 2 else x + 2

unfoldable pub align : ℕ → ℕ
align x = (16 * ((x + 15) % 2 ^ 64 / 16)) % 2 ^ 64

-- `intptr_t` from `size_t`.
abbrev pub signed : ℕ → ℤ
signed x = if ltb x (2 ^ 63) then pos x else negsuc (2 ^ 64 - 1 - x)

unfoldable pub remove_from_free_list : ℕ → Mm → Mm
remove_from_free_list block s =
    let prev = load s (prev_node block) in
    let s' =
      if prev == 0
      then record s { free_block_pointer = load s (next_node block) }
      else put s (next_node prev) (load s (next_node block)) in
    let next = load s' (next_node block) in
    if next == 0 then s' else put s' (prev_node next) (load s' (prev_node block))

unfoldable pub add_to_free_list : ℕ → Mm → Mm
add_to_free_list block s =
    let s1 = put s (prev_node block) 0 in
    let s2 = put s1 (next_node block) s1.free_block_pointer in
    let s3 =
      if s2.free_block_pointer == 0 then s2 else put s2 (prev_node s2.free_block_pointer) block in
    record s3 { free_block_pointer = block }

-- `free_block_pointer` is what it was before the call, where `mm_sbrk` fails.
unfoldable pub mm_init : Mm → Bool × Mm
unfolding mm_sbrk mm_heap_hi
mm_init s =
    let (start, lib) = mm_sbrk (pos (4096 + 16)) s.lib in
    let s0 = record s { lib = lib } in
    elim start [
      | none ↦ (false, s0)
      | some heap_start ↦
          let heap_end = mm_heap_hi lib + 1 in
          let free_block = heap_start + 8 in
          let s1 = put s0 heap_start 1 in
          let s2 = put s1 free_block 4096 in
          let s3 = put s2 (prev_node free_block) 0 in
          let s4 = put s3 (next_node free_block) 0 in
          let s5 = put s4 free_block (toggle_2 (load s4 free_block)) in
          let s6 = record s5 { free_block_pointer = free_block } in
          let s7 = put s6 (heap_end - 16) 4096 in (true, put s7 (heap_end - 8) 1)
    ]

-- The `while`, for so many blocks; `none` where the list goes on behind them.
unfoldable pub search_from : ℕ → ℕ → ℕ → Mm → Option ℕ
search_from zero size look s = none
search_from (suc fuel) size look s =
    let rest = search_from fuel size (load s (next_node look)) s in
    if look == 0 then some 0 else if leb size (size_of (load s look)) then some look else rest

-- There are fewer blocks than bytes in the heap.
unfoldable pub search : ℕ → Mm → Option ℕ
unfolding search_from mm_heapsize
search size s = search_from (mm_heapsize s.lib + 1) size s.free_block_pointer s

-- The header of a block, written anew with its mark of the block before it.
abbrev pub keep_2 : ℕ → ℕ → ℕ
keep_2 old new = if has_2 old then toggle_2 new else new

unfoldable pub take_whole : ℕ → ℕ → Mm → ℕ × Mm
unfolding remove_from_free_list
take_whole block current_size s =
    let old = load s block in
    let s1 = put s block (with_1 current_size) in
    let s2 = if has_2 old then put s1 block (toggle_2 (load s1 block)) else s1 in
    let behind = block + 8 * (current_size / 8) in
    let s3 = put s2 behind (toggle_2 (load s2 behind)) in
    (block + 8, remove_from_free_list block s3)

unfoldable pub split : ℕ → ℕ → ℕ → Mm → ℕ × Mm
split block current_size required s =
    let extra_size = current_size - required in
    let s1 = put s block (keep_2 (load s block) extra_size) in
    let s2 = put s1 (block + 8 * (extra_size / 8) - 8) extra_size in
    let alloc_header = block + 8 * (extra_size / 8) in
    let s3 = put s2 alloc_header (with_1 required) in
    let behind = block + 8 * (current_size / 8) in
    (alloc_header + 8, put s3 behind (toggle_2 (load s3 behind)))

unfoldable pub extend : ℕ → Mm → ℕ × Mm
unfolding mm_sbrk mm_heap_hi
extend required s =
    let (start, lib) = mm_sbrk (signed required) s.lib in
    let s0 = record s { lib = lib } in
    elim start [
      | none ↦ (0, s0)
      | some new_block_ptr ↦
          let header = new_block_ptr - 8 in
          let s1 = put s0 header (keep_2 (load s0 header) (with_1 required)) in
          (new_block_ptr, put s1 (mm_heap_hi lib + 1 - 8) 3)
    ]

-- `size_t` of `size + 8`, rounded up to at least 32.
unfoldable pub block_size_for : ℕ → ℕ
unfolding align
block_size_for size =
    let required = align ((size + 8) % 2 ^ 64) in if ltb required 32 then 32 else required

-- The pointer is 0 for NULL. `none` where the search does not end.
unfoldable pub malloc : ℕ → Mm → Option (ℕ × Mm)
unfolding search take_whole split extend block_size_for
malloc size s =
    if size == 0
    then some (0, s)
    else (let required = block_size_for size in
        elim (search required s) [
          | none ↦ none
          | some block ↦
              let current_size = size_of (load s block) in
              some (
                if block == 0
                then extend required s
                else if leb (current_size - required) 32 || (current_size == required)
                then take_whole block current_size s
                else split block current_size required s)
        ])
