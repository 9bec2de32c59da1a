-- ===== src/Memlib/Tests.antt =====
-- The theorems on the simulated memory at concrete sizes.
use cmpsc_473_operating_syst.Common.{arith}
use cmpsc_473_operating_syst.Memlib.{MemLib, Memory, pos, mm_sbrk, mm_memcpy}
use cmpsc_473_operating_syst.Memlib.Bounds.{Moved, mm_sbrk-Moved, Written, mm_memcpy-Written}

abbrev half_full : MemLib
half_full = record { heap = 4096; mem_brk = 4196; mem_max_addr = 4296 }

mm_sbrk-Moved_example : Moved (pos 64) half_full (mm_sbrk (pos 64) half_full)
mm_sbrk-Moved_example = mm_sbrk-Moved (pos 64) half_full (omega arith, omega arith)

abbrev ramp : Memory
ramp a = a

mm_memcpy-Written_example : Written ramp 4096 19 (mm_memcpy ramp 4096 8192 19)
mm_memcpy-Written_example = mm_memcpy-Written ramp 4096 8192 19
