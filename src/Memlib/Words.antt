-- ===== src/Memlib/Words.antt =====
-- Reads of what mem_write has written.
use cmpsc_473_operating_syst.Common.{
  ℕ, zero, suc, ◌+◌, ◌*◌, ◌/◌, ◌%◌, ◌^◌, ◌≤◌, ◌<◌, ◌≡◌, refl, ◌⊎◌, inl, arith, ◌==◌, if◌then◌else◌,
}
use native.Mathlib.Nat.{pow-suc}
use cmpsc_473_operating_syst.Memlib.{Memory, load_bytes, store_bytes, mem_read, mem_write}
use cmpsc_473_operating_syst.Memlib.Bounds.{store_bytes_outside}

load_bytes_same :
    (n : ℕ) (mem mem' : Memory) (addr : ℕ)
    → ((a : ℕ) → addr ≤ a → a < addr + n → mem' a ≡ mem a)
    → load_bytes n mem' addr ≡ load_bytes n mem addr
unfolding load_bytes
load_bytes_same zero mem mem' addr h = refl
load_bytes_same (suc n) mem mem' addr h =
    rw
      (
        h addr (omega arith) (omega arith),
        load_bytes_same n mem mem' (addr + 1) (λ a lo hi. h a (omega arith) (omega arith)),
      )
      refl

load_bytes-store_bytes :
    (n : ℕ) (mem : Memory) (addr val : ℕ)
    → val < 256 ^ n
    → load_bytes n (store_bytes n mem addr val) addr ≡ val
unfolding load_bytes store_bytes
load_bytes-store_bytes zero mem addr val small = omega arith
load_bytes-store_bytes (suc n) mem addr val small =
    let within : val < 256 ^ n * 256 = rw (← pow-suc 256 n) small in
    let rest : val / 256 < 256 ^ n = omega arith in
    let byte : (if addr == addr then val % 256 else mem addr) ≡ val % 256 = ground arith in
    rw
      (
        store_bytes_outside n (λ a. if a == addr then val % 256 else mem a) (addr + 1) (val / 256)
            addr (inl (omega arith)),
        load_bytes-store_bytes n (λ a. if a == addr then val % 256 else mem a) (addr + 1)
            (val / 256) rest,
        byte,
      )
      (omega arith)

-- A word below 2 ^ 64 that is written is read back.
pub mem_read-mem_write :
    (mem : Memory) (addr val : ℕ) → val < 2 ^ 64 → mem_read (mem_write mem addr val 8) addr 8 ≡ val
unfolding mem_read mem_write
mem_read-mem_write mem addr val small = load_bytes-store_bytes 8 mem addr val small

-- Words that do not overlap it are unchanged.
pub mem_read-mem_write_ne :
    (mem : Memory) (addr val a : ℕ)
    → (a + 8 ≤ addr) ⊎ (addr + 8 ≤ a)
    → mem_read (mem_write mem addr val 8) a 8 ≡ mem_read mem a 8
unfolding mem_read mem_write
mem_read-mem_write_ne mem addr val a out =
    load_bytes_same 8 mem _ a (λ b lo hi. store_bytes_outside 8 mem addr val b (ground arith))
