-- ===== src/Malloc/Release.antt =====
-- mm.c: free, coalesce, realloc and calloc.
use cmpsc_473_operating_syst.Common.{
  ℕ, ◌+◌, ◌-◌, ◌*◌, ◌/◌, ◌%◌, ◌^◌, Bool, ◌&&◌, not, Option, none, some, ltb, leb, ◌==◌,
  if◌then◌else◌,
}
use cmpsc_473_operating_syst.Memlib.{Memory, mm_heap_lo, mm_heap_hi, mm_memcpy, mm_memset}
use cmpsc_473_operating_syst.Malloc.{
  Mm, load, put, has_1, has_2, size_of, without_1, without_2, toggle_2, align,
  remove_from_free_list, add_to_free_list, malloc,
}

-- Whether a header may be merged. `(size_t *)mm_heap_hi() - 7` is 56 bytes below the last one.
abbrev pub mergeable : Mm → ℕ → Bool
mergeable s header = leb (mm_heap_lo s.lib + 8) header && ltb header (mm_heap_hi s.lib - 56)

-- The block before, if it is free: what the merged block is, how large, and what is left.
unfoldable pub merge_prev : ℕ → Mm → ℕ × ℕ × Mm
unfolding remove_from_free_list mm_heap_lo mm_heap_hi
merge_prev block s =
    let current_size = size_of (load s block) in
    let prev_header = block - 8 * (size_of (load s (block - 8)) / 8) in
    if not (has_2 (load s block)) && mergeable s prev_header
    then (let s' = remove_from_free_list prev_header s in
        (prev_header, (current_size + size_of (load s' prev_header)) % 2 ^ 64, s'))
    else (block, current_size, s)

-- The block behind, if it is free.
unfoldable pub merge_next : ℕ → ℕ → Mm → ℕ × Mm
unfolding remove_from_free_list mm_heap_lo mm_heap_hi
merge_next next_header merged_size s =
    if mergeable s next_header && not (has_1 (load s next_header))
    then (let s' = remove_from_free_list next_header s in
        ((merged_size + size_of (load s' next_header)) % 2 ^ 64, s'))
    else (merged_size, s)

unfoldable pub coalesce : ℕ → Mm → Mm
unfolding merge_prev merge_next remove_from_free_list add_to_free_list
coalesce block s =
    let current_size = size_of (load s block) in
    let (merged_block, size1, s1) = merge_prev block s in
    let (merged_size, s2) = merge_next (block + 8 * (current_size / 8)) size1 s1 in
    if merged_size == current_size
    then s2
    else (let s3 = remove_from_free_list block s2 in
        let s4 = put s3 merged_block merged_size in
        let s5 = put s4 merged_block (toggle_2 (load s4 merged_block)) in
        let s6 = put s5 (merged_block + 8 * (merged_size / 8) - 8) merged_size in
        add_to_free_list merged_block s6)

unfoldable pub free : ℕ → Mm → Mm
unfolding add_to_free_list coalesce
free ptr s =
    if ptr == 0
    then s
    else (let block = ptr - 8 in
        let s1 = put s block (without_1 (load s block)) in
        let block_size = size_of (load s1 block) in
        let s2 = put s1 (block + 8 * (block_size / 8) - 8) block_size in
        let behind = block + 8 * (block_size / 8) in
        let s3 = put s2 behind (without_2 (load s2 behind)) in
        coalesce block (add_to_free_list block s3))

-- What `memcpy` and `memset` leave.
abbrev pub with_mem : Mm → Option Memory → Option Mm
with_mem s none = none
with_mem s (some mem) = some (record s { mem = mem })

abbrev pub copied : ℕ → ℕ → ℕ → Mm → Option Mm
copied new oldptr size s =
    let old_block_size = size_of (load s (oldptr - 8)) in
    let bytes_to_copy = if ltb old_block_size size then old_block_size else size in
    if new == 0 then some s else with_mem s (mm_memcpy s.mem new oldptr bytes_to_copy)

unfoldable pub realloc : ℕ → ℕ → Mm → Option (ℕ × Mm)
unfolding malloc free mm_memcpy
realloc oldptr size s =
    if oldptr == 0
    then malloc size s
    else if size == 0
    then some (0, free oldptr s)
    else elim (malloc size s) [
      | none ↦ none
      | some (new, s1) ↦ elim (copied new oldptr size s1) [
        | none ↦ none
        | some s2 ↦ some (new, free oldptr s2)
      ]
    ]

unfoldable pub calloc : ℕ → ℕ → Mm → Option (ℕ × Mm)
unfolding malloc mm_memset
calloc nmemb size s =
    let bytes = (size * nmemb) % 2 ^ 64 in
    elim (malloc bytes s) [
      | none ↦ none
      | some (ptr, s1) ↦
          if ptr == 0 then some (ptr, s1) else elim (with_mem s1 (mm_memset s1.mem ptr 0 bytes)) [
            | none ↦ none
            | some s2 ↦ some (ptr, s2)
          ]
    ]

unfoldable pub in_heap : ℕ → Mm → Bool
unfolding mm_heap_lo mm_heap_hi
in_heap p s = leb p (mm_heap_hi s.lib) && leb (mm_heap_lo s.lib) p

unfoldable pub aligned : ℕ → Bool
unfolding align
aligned p = align p == p
