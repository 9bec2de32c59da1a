-- ===== src/Memlib.antt =====
-- assignment-2-malloclab-FreezeKickerz/memlib.h and memlib.c: the simulated memory system of the
-- allocator. An address is a number and the memory a function from addresses to bytes.
pub mod Bounds
pub mod Words
mod Tests
use cmpsc_473_operating_syst.Common.{
  ℕ, zero, suc, ◌+◌, ◌-◌, ◌*◌, ◌/◌, ◌%◌, ◌^◌, Option, none, some, ltb, leb, ◌==◌, if◌then◌else◌,
}

-- `intptr_t`: `negsuc n` is `-(n + 1)`.
pub data ℤ : Type 0 where
  pos negsuc : ℕ → ℤ

-- The private global variables.
pub record MemLib : Type 0 where
  pub heap : ℕ
  pub mem_brk : ℕ
  pub mem_max_addr : ℕ

abbrev pub Memory : Type 0
Memory = ℕ → ℕ

-- `none` is `(void *) -1`, with `errno` set.
unfoldable pub mm_sbrk : ℤ → MemLib → Option ℕ × MemLib
mm_sbrk (negsuc n) m = (none, m)
mm_sbrk (pos incr) m =
    if ltb m.mem_max_addr (m.mem_brk + incr)
    then (none, m)
    else (some m.mem_brk, record m { mem_brk = m.mem_brk + incr })

unfoldable pub mm_heap_lo : MemLib → ℕ
mm_heap_lo m = m.heap

unfoldable pub mm_heap_hi : MemLib → ℕ
mm_heap_hi m = m.mem_brk - 1

unfoldable pub mm_heapsize : MemLib → ℕ
mm_heapsize m = m.mem_brk - m.heap

unfoldable pub mem_reset_brk : MemLib → MemLib
mem_reset_brk m = record m { mem_brk = m.heap }

-- `addr` is what `mmap` returns, `none` where it fails and the program ends; `max_heap_size` is
-- `MAX_HEAP_SIZE`.
unfoldable pub mem_init : (max_heap_size : ℕ) (addr : Option ℕ) → Option MemLib
unfolding mem_reset_brk
mem_init max_heap_size none = none
mem_init max_heap_size (some addr) =
    some
      (mem_reset_brk (record { heap = addr; mem_brk = addr; mem_max_addr = addr + max_heap_size }))

unfoldable pub mem_sbrk : ℤ → MemLib → Option ℕ × MemLib
unfolding mm_sbrk
mem_sbrk incr m = mm_sbrk incr m

unfoldable pub mem_heap_lo : MemLib → ℕ
mem_heap_lo m = m.heap

unfoldable pub mem_heap_hi : MemLib → ℕ
mem_heap_hi m = m.mem_brk - 1

unfoldable pub mem_heapsize : MemLib → ℕ
mem_heapsize m = m.mem_brk - m.heap

-- The number in `n` bytes from an address on, the lowest byte first.
unfoldable pub load_bytes : (n : ℕ) → Memory → ℕ → ℕ
load_bytes zero mem addr = 0
load_bytes (suc n) mem addr = mem addr + 256 * load_bytes n mem (addr + 1)

-- The mask leaves the low `len` bytes, which is the rest of a division.
unfoldable pub mem_read : Memory → (addr len : ℕ) → ℕ
unfolding load_bytes
mem_read mem addr len =
    let rdata = load_bytes 8 mem addr in if ltb len 8 then rdata % 2 ^ (8 * len) else rdata

-- The low `n` bytes of a number, stored from an address on.
unfoldable pub store_bytes : (n : ℕ) → Memory → ℕ → ℕ → Memory
store_bytes zero mem addr val = mem
store_bytes (suc n) mem addr val =
    store_bytes n (λ a. if a == addr then val % 256 else mem a) (addr + 1) (val / 256)

unfoldable pub mem_write : Memory → (addr val len : ℕ) → Memory
unfolding store_bytes
mem_write mem addr val len =
    if len == 8 then store_bytes 8 mem addr val else store_bytes len mem addr val

-- The loop of `mm_memcpy` and what follows it.
unfoldable pub copy_words : (fuel : ℕ) → Memory → (dst src n : ℕ) → Option Memory
unfolding mem_read mem_write
copy_words zero mem dst src n = none
copy_words (suc fuel) mem dst src n =
    if leb 8 n
    then copy_words fuel (mem_write mem dst (mem_read mem src 8) 8) (dst + 8) (src + 8) (n - 8)
    else some (if n == 0 then mem else mem_write mem dst (mem_read mem src n) n)

-- The steps of the loop are at most `n`.
unfoldable pub mm_memcpy : Memory → (dst src n : ℕ) → Option Memory
unfolding copy_words
mm_memcpy mem dst src n = copy_words (n + 1) mem dst src n

-- `data` after `i` rounds: the bits that are set together are distinct, so `|` is a sum.
unfoldable pub repeat_byte : (i byte : ℕ) → ℕ
repeat_byte zero byte = 0
repeat_byte (suc i) byte = repeat_byte i byte + byte * 2 ^ (8 * i)

-- The second loop of `mm_memset` and what follows it.
unfoldable pub fill_words : (fuel : ℕ) → Memory → (dst val n : ℕ) → Option Memory
unfolding mem_write
fill_words zero mem dst val n = none
fill_words (suc fuel) mem dst val n =
    if leb 8 n
    then fill_words fuel (mem_write mem dst val 8) (dst + 8) val (n - 8)
    else some (if n == 0 then mem else mem_write mem dst val n)

-- `c` is the `int` as its bits.
unfoldable pub mm_memset : Memory → (dst c n : ℕ) → Option Memory
unfolding fill_words repeat_byte
mm_memset mem dst c n = fill_words (n + 1) mem dst (repeat_byte 8 (c % 256)) n

unfoldable pub mem_memcpy : Memory → (dst src n : ℕ) → Option Memory
unfolding mm_memcpy
mem_memcpy mem dst src n = mm_memcpy mem dst src n

unfoldable pub mem_memset : Memory → (dst c n : ℕ) → Option Memory
unfolding mm_memset
mem_memset mem dst c n = mm_memset mem dst c n
