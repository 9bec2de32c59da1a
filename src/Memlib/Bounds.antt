-- ===== src/Memlib/Bounds.antt =====
-- The break stays within the heap, and copying changes no byte outside its destination.
use cmpsc_473_operating_syst.Common.{
  ℕ, zero, suc, ◌+◌, ◌-◌, ◌≤◌, ◌<◌, ◌≡◌, refl, ◌∙◌, ◌⊎◌, inl, inr, Option, none, some, arith, ltb,
  leb, ◌==◌, Bool-cases,
}
use cmpsc_473_operating_syst.Memlib.{
  ℤ, pos, negsuc, MemLib, Memory, mm_sbrk, mm_heapsize, store_bytes, mem_write, mem_read,
  copy_words, mm_memcpy,
}

-- The break lies in the memory that the system has.
abbrev pub IsWithin : MemLib → Type 0
IsWithin m = (m.heap ≤ m.mem_brk) × (m.mem_brk ≤ m.mem_max_addr)

-- What `mm_sbrk` may answer.
abbrev pub Moved : ℤ → MemLib → Option ℕ × MemLib → Type 0
Moved (negsuc n) m (r, m') = (r ≡ none) × (m' ≡ m)
Moved (pos incr) m (r, m') =
    ((r ≡ none) × (m' ≡ m) × (m.mem_max_addr < m.mem_brk + incr))
    ⊎ ((r ≡ some m.mem_brk)
        × IsWithin m'
        × (mm_heapsize m' ≡ mm_heapsize m + incr)
        × (m'.heap ≡ m.heap)
        × (m'.mem_max_addr ≡ m.mem_max_addr))

-- `mm_sbrk` refuses a negative increment and one past the end of the memory, and changes nothing
-- then; otherwise it returns the old break, the heap grows by the increment, and the break stays
-- within the memory.
pub mm_sbrk-Moved : (incr : ℤ) (m : MemLib) → IsWithin m → Moved incr m (mm_sbrk incr m)
unfolding mm_sbrk mm_heapsize
mm_sbrk-Moved (negsuc n) m (low, high) = (refl, refl)
mm_sbrk-Moved (pos incr) m (low, high) = elim (Bool-cases (ltb m.mem_max_addr (m.mem_brk + incr))) [
  | inl past ↦ rw past (inl (refl, refl, ground arith))
  | inr fits ↦ rw fits (inr (refl, (omega arith, ground arith), omega arith, refl, refl))
]

pub store_bytes_outside :
    (n : ℕ) (mem : Memory) (addr val a : ℕ)
    → (a < addr) ⊎ (addr + n ≤ a)
    → store_bytes n mem addr val a ≡ mem a
unfolding store_bytes
store_bytes_outside zero mem addr val a out = refl
store_bytes_outside (suc n) mem addr val a out =
    store_bytes_outside n _ (addr + 1) _ a (ground arith) ∙ ground arith

pub mem_write_outside :
    (mem : Memory) (addr val len a : ℕ)
    → (a < addr) ⊎ (addr + len ≤ a)
    → mem_write mem addr val len a ≡ mem a
unfolding mem_write
mem_write_outside mem addr val len a out = elim (Bool-cases (len == 8)) [
  | inl whole ↦ rw whole (store_bytes_outside 8 mem addr val a (ground arith))
  | inr part ↦ rw part (store_bytes_outside len mem addr val a out)
]

-- The memory is there, and is as before outside `n` bytes from `dst` on.
abbrev pub Written : Memory → ℕ → ℕ → Option Memory → Type 0
Written mem dst n none = ⊥
Written mem dst n (some mem') = (a : ℕ) → (a < dst) ⊎ (dst + n ≤ a) → mem' a ≡ mem a

Written-mono :
    (mem mem' : Memory) (dst n : ℕ) (r : Option Memory)
    → 8 ≤ n
    → ((a : ℕ) → (a < dst) ⊎ (dst + 8 ≤ a) → mem' a ≡ mem a)
    → Written mem' (dst + 8) (n - 8) r
    → Written mem dst n r
Written-mono mem mem' dst n none le same w = w
Written-mono mem mem' dst n (some last) le same w =
    λ a out. w a (ground arith) ∙ same a (ground arith)

copy_words-Written :
    (fuel : ℕ) (mem : Memory) (dst src n : ℕ)
    → n < fuel
    → Written mem dst n (copy_words fuel mem dst src n)
unfolding copy_words
copy_words-Written zero mem dst src n h = absurd (omega arith)
copy_words-Written (suc fuel) mem dst src n h = elim (Bool-cases (leb 8 n)) [
  | inl more ↦ rw more (
      Written-mono mem _ dst n _ (ground arith)
        (λ a out. mem_write_outside mem dst (mem_read mem src 8) 8 a out)
        (copy_words-Written fuel _ (dst + 8) (src + 8) (n - 8) (ground arith)))
  | inr rest ↦ rw rest (elim (Bool-cases (n == 0)) [
    | inl nothing ↦ rw nothing (λ a out. refl)
    | inr some_bytes ↦
        rw some_bytes (λ a out. mem_write_outside mem dst (mem_read mem src n) n a out)
  ])
]

-- `mm_memcpy` ends, and changes no byte outside the `n` bytes at `dst`.
pub mm_memcpy-Written : (mem : Memory) (dst src n : ℕ) → Written mem dst n (mm_memcpy mem dst src n)
unfolding mm_memcpy
mm_memcpy-Written mem dst src n = copy_words-Written (n + 1) mem dst src n (omega arith)
