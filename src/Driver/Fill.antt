-- ===== src/Driver/Fill.antt =====
-- What randomize_block has written check_index finds again.
use cmpsc_473_operating_syst.Common.{
  ℕ, zero, suc, ◌+◌, ◌%◌, ◌^◌, ◌≤◌, ◌<◌, ◌≡◌, refl, ap, ◌∙◌, ◌⊎◌, inl, inr, arith, Bool, true,
  false, ltb, ◌==◌, if◌then◌else◌, Bool-cases,
}
use cmpsc_473_operating_syst.Memlib.{pos, Memory, mem_read, mem_write, load_bytes, store_bytes}
use cmpsc_473_operating_syst.Memlib.Bounds.{mem_write_outside}
use cmpsc_473_operating_syst.Driver.{
  DebugMode, dbg_none, dbg_cheap, dbg_expensive, TraceT, at_index, fill_sizes, fill, garbled,
  randomize_block, check_index,
}

-- A byte that is written, and one that is read.
mem_write_byte : (mem : Memory) (a v : ℕ) → mem_write mem a v 1 a ≡ v % 256
unfolding mem_write store_bytes
mem_write_byte mem a v = ground arith

mem_read_byte : (mem : Memory) (a : ℕ) → mem_read mem a 1 ≡ mem a % 256
unfolding mem_read load_bytes
mem_read_byte mem a = omega arith

fill_outside :
    (data_at : ℕ → ℕ) (n i block base : ℕ) (mem : Memory) (a : ℕ)
    → (a < block + i) ⊎ (block + i + n ≤ a)
    → fill data_at n i block base mem a ≡ mem a
unfolding fill
fill_outside data_at zero i block base mem a out = refl
fill_outside data_at (suc n) i block base mem a out =
    fill_outside data_at n (i + 1) block base _ a (ground arith)
    ∙ mem_write_outside mem (block + i) (data_at ((base + i) % 2 ^ 16)) 1 a (ground arith)

fill_inside :
    (data_at : ℕ → ℕ) (n i block base : ℕ) (mem : Memory) (j : ℕ)
    → i ≤ j
    → j < i + n
    → fill data_at n i block base mem (block + j) ≡ data_at ((base + j) % 2 ^ 16) % 256
unfolding fill
fill_inside data_at zero i block base mem j low high = absurd (omega arith)
fill_inside data_at (suc n) i block base mem j low high = elim (Bool-cases (j == i)) [
  | inl e ↦
      let same : j ≡ i = ground arith in
      rw same (
        fill_outside data_at n (i + 1) block base _ (block + i) (inl (omega arith))
        ∙ mem_write_byte mem (block + i) (data_at ((base + i) % 2 ^ 16)))
  | inr e ↦ fill_inside data_at n (i + 1) block base _ j (ground arith) (ground arith)
]

-- Bytes that are the data are not garbled.
garbled-zero :
    (data_at : ℕ → ℕ) (n i block base : ℕ) (mem : Memory)
    → ((k : ℕ) → data_at k < 256)
    → ((j : ℕ) → i ≤ j → j < i + n → mem (block + j) ≡ data_at ((base + j) % 2 ^ 16) % 256)
    → garbled data_at n i block base mem ≡ 0
unfolding garbled
garbled-zero data_at zero i block base mem bytes h = refl
garbled-zero data_at (suc n) i block base mem bytes h =
    let here : mem_read mem (block + i) 1 ≡ data_at ((base + i) % 2 ^ 16) =
      mem_read_byte mem (block + i)
      ∙ ap (λ t. t % 256) (h i (omega arith) (omega arith))
      ∙ omega (arith, bytes ((base + i) % 2 ^ 16)) in
    let rest =
      garbled-zero data_at n (i + 1) block base mem bytes
        (λ j low high. h j (omega arith) (omega arith)) in
    let found : (mem_read mem (block + i) 1 == data_at ((base + i) % 2 ^ 16)) ≡ true =
      ground arith in
    rw found rest

-- The two parts lie in the block and do not overlap.
fill_sizes_bounds :
    (maxfill size : ℕ)
    → let (fsize, fsize_end, offset) = fill_sizes maxfill size in
      (fsize ≤ size) × ((fsize_end ≡ 0) ⊎ ((fsize ≤ offset) × (offset + fsize_end ≤ size)))
unfolding fill_sizes
fill_sizes_bounds maxfill size = (ground arith, ground arith)

-- The bytes that randomize_block leaves.
abbrev filled : (ℕ → ℕ) → (maxfill size block base : ℕ) → Memory → Memory
filled data_at maxfill size block base mem =
    let (fsize, fsize_end, offset) = fill_sizes maxfill size in
    fill data_at fsize_end 0 (block + offset) base (fill data_at fsize 0 block base mem)

module _ (data_at : ℕ → ℕ) (bytes : (k : ℕ) → data_at k < 256) (maxfill size block base : ℕ)
    (mem mem' : Memory)
    (kept : (a : ℕ)
      → block ≤ a
      → a < block + size
      → mem' a ≡ filled data_at maxfill size block base mem a) where
  abbrev fsize : ℕ
  fsize = (fill_sizes maxfill size).0

  abbrev fsize_end : ℕ
  fsize_end = (fill_sizes maxfill size).1

  abbrev offset : ℕ
  offset = (fill_sizes maxfill size).2

  front_found : garbled data_at fsize 0 block base mem' ≡ 0
  front_found =
      let (within, apart) = fill_sizes_bounds maxfill size in
      garbled-zero data_at fsize 0 block base mem' bytes (λ j low high.
        kept (block + j) (omega arith) (omega arith)
        ∙ fill_outside data_at fsize_end 0 (block + offset) base _ (block + j)
            (elim apart [ inl e ↦ beyond fsize_end e j | inr (order, end) ↦ inl (omega arith) ])
        ∙ fill_inside data_at fsize 0 block base mem j low high)
    where
      beyond :
          (n : ℕ)
          → n ≡ 0
          → (j : ℕ) → (block + j < block + offset + 0) ⊎ (block + offset + 0 + n ≤ block + j)
      beyond n e j = elim (Bool-cases (ltb j offset)) [
        | inl below ↦ inl (ground arith)
        | inr above ↦ inr (ground arith)
      ]

  end_found : garbled data_at fsize_end 0 (block + offset) base mem' ≡ 0
  end_found =
      let (within, apart) = fill_sizes_bounds maxfill size in
      garbled-zero data_at fsize_end 0 (block + offset) base mem' bytes (λ j low high.
        kept (block + offset + j) (omega arith)
          (elim apart [ inl e ↦ absurd (omega arith) | inr (order, end) ↦ omega arith ])
        ∙ fill_inside data_at fsize_end 0 (block + offset) base _ j low high)

  all_found :
      (is_realloc : Bool) (base' : ℕ)
      → base' ≡ base
      → let at_end =
          if is_realloc then 0 else garbled data_at fsize_end 0 (block + offset) base' mem' in
        (garbled data_at fsize 0 block base' mem' + at_end == 0) ≡ true
  all_found true base' e = rw (e, front_found) refl
  all_found false base' e = rw (e, front_found, end_found) refl

-- As long as no byte of a block changes after randomize_block has filled it, check_index finds the
-- block in order, whole or only its front after a realloc, whatever else changes in memory.
pub check_index-randomize_block :
    (data_at : ℕ → ℕ) (mode : DebugMode) (maxfill : ℕ) (random : ℕ → ℕ) (t : TraceT) (index : ℕ)
    (mem mem' : Memory) (is_realloc : Bool)
    → ((k : ℕ) → data_at k < 256)
    → let (t', filled_mem) = randomize_block data_at mode maxfill random t index mem in
      ((a : ℕ)
        → t.blocks index ≤ a
        → a < t.blocks index + t.block_sizes index
        → mem' a ≡ filled_mem a)
      → check_index data_at mode maxfill t' (pos index) is_realloc mem' ≡ true
unfolding check_index randomize_block
check_index-randomize_block data_at dbg_none maxfill random t index mem mem' is_realloc bytes kept =
    refl
check_index-randomize_block data_at dbg_cheap maxfill random t index mem mem' is_realloc bytes
      kept =
    all_found data_at bytes maxfill (t.block_sizes index) (t.blocks index) (random t.drawn) mem mem'
      kept is_realloc (at_index index (random t.drawn) t.block_rand_base index) (ground arith)
check_index-randomize_block data_at dbg_expensive maxfill random t index mem mem' is_realloc bytes
      kept =
    all_found data_at bytes maxfill (t.block_sizes index) (t.blocks index) (random t.drawn) mem mem'
      kept is_realloc (at_index index (random t.drawn) t.block_rand_base index) (ground arith)
