-- ===== src/Driver/Trace.antt =====
-- mdriver.c: the replay of a trace by the allocator of mm.c, with its checks (eval_mm_valid), for the
-- space that it needs (eval_mm_util), and alone (eval_mm_speed). A trace file is the list of requests
-- that read_trace makes of it.
use cmpsc_473_operating_syst.Common.{
  ℕ, zero, suc, ◌+◌, ◌-◌, ◌%◌, ◌^◌, Bool, true, false, ◌&&◌, not, Option, none, some, List, [], ◌∷◌,
  ltb, ◌==◌, if◌then◌else◌, length,
}
use cmpsc_473_operating_syst.Memlib.{ℤ, pos, negsuc, mem_reset_brk, mem_heapsize}
use cmpsc_473_operating_syst.Malloc.{Mm, mm_init, malloc}
use cmpsc_473_operating_syst.Malloc.Release.{free, realloc}
use cmpsc_473_operating_syst.Driver.{
  DebugMode, dbg_none, dbg_cheap, dbg_expensive, is_none, RangeT, RangeSet, TraceT, at_index,
  add_range, remove_range, reset_range_set, reinit_trace, randomize_block, check_index,
}

-- `traceop_t`
pub data TraceOp : Type 0 where
  alloc : (index size : ℕ) → TraceOp
  release : (index : ℤ) → TraceOp
  resize : (index size : ℕ) → TraceOp

-- A check that failed, or the end of the program: by app_error, or where a call does not return.
pub data Verdict (A : Type 0) : Type 0 where
  valid : A → Verdict A
  invalid : Verdict A
  aborted : Verdict A

infixl 5 ◌>>=◌ ◌>>◌
abbrev pub ◌>>=◌ : {A B : Type 0} → Verdict A → (A → Verdict B) → Verdict B
valid a >>= f = f a
invalid >>= f = invalid
aborted >>= f = aborted

abbrev pub ◌>>◌ : {B : Type 0} → Verdict (Unit {0}) → Verdict B → Verdict B
m >> k = m >>= λ _. k

abbrev pub check : Bool → Verdict (Unit {0})
check true = valid tt
check false = invalid

abbrev pub demand : Bool → Verdict (Unit {0})
demand true = valid tt
demand false = aborted

abbrev pub returned : {A : Type 0} → Option A → Verdict A
returned none = aborted
returned (some a) = valid a

pub record Driver : Type 0 where
  pub mm : Mm
  pub trace : TraceT
  pub ranges : RangeSet

-- The variables that the options set, the bytes of random_data, and what the library gives.
pub record Setting : Type 0 where
  pub mode : DebugMode
  pub maxfill : ℕ
  pub random_data : ℕ → ℕ
  pub random : ℕ → ℕ
  pub new_record : (ℕ → Option RangeT) → ℕ

abbrev pub is_null : ℕ → Bool
is_null p = p == 0

module _ (e : Setting) where
  abbrev check_block : Driver → ℤ → Bool → Bool
  check_block d index is_realloc =
      check_index e.random_data e.mode e.maxfill d.trace index is_realloc d.mm.mem

  abbrev record_range : ℕ → ℕ → ℕ → Driver → Verdict Driver
  record_range lo size index d =
      let p = e.new_record d.ranges.cells in
      let (done, ranges) = add_range e.mode d.mm.lib p d.ranges lo size (pos index) in
      if not done
      then invalid
      else if is_null p && not (is_none e.mode)
      then aborted
      else valid (record d { ranges = ranges })

  abbrev remember : ℕ → ℕ → ℕ → Driver → Driver
  remember index p size d = record d {
    trace = record d.trace {
      blocks = at_index index p d.trace.blocks;
      block_sizes = at_index index size d.trace.block_sizes;
    };
  }

  abbrev randomized : ℕ → Driver → Driver
  randomized index d =
      let (trace, mem) =
        randomize_block e.random_data e.mode e.maxfill e.random d.trace index d.mm.mem in
      record d { trace = trace; mm = record d.mm { mem = mem } }

  unfoldable pub do_alloc : (index size : ℕ) → Driver → Verdict Driver
  unfolding add_range randomize_block malloc
  do_alloc index size d = do
    (p, mm) ← returned (malloc size d.mm)
    check (not (is_null p))
    d1 ← record_range p size index (record d { mm = mm })
    valid (randomized index (remember index p size d1))

  unfoldable pub do_resize : (index size : ℕ) → Driver → Verdict Driver
  unfolding add_range remove_range randomize_block check_index realloc
  do_resize index size d = do
    check (check_block d (pos index) false)
    let oldp = d.trace.blocks index
    (newp, mm) ← returned (realloc oldp size d.mm)
    check (if is_null newp then size == 0 else not (size == 0))
    let d1 = record d { mm = mm; ranges = remove_range d.ranges oldp }
    d2 ← (if size == 0 then valid d1 else record_range newp size index d1)
    let old_size = d2.trace.block_sizes index
    let d3 = remember index newp (if ltb size old_size then size else old_size) d2
    check (check_block d3 (pos index) true)
    valid (randomized index (remember index newp size d3))

  unfoldable pub do_release : (index : ℤ) → Driver → Verdict Driver
  unfolding remove_range check_index free
  do_release (negsuc n) d = valid (record d { mm = free 0 d.mm })
  do_release (pos index) d = do
    check (check_block d (pos index) false)
    let p = d.trace.blocks index
    valid (record d { mm = free p d.mm; ranges = remove_range d.ranges p })

  unfoldable pub do_op : TraceOp → Driver → Verdict Driver
  unfolding do_alloc do_resize do_release
  do_op (alloc index size) d = do_alloc index size d
  do_op (resize index size) d = do_resize index size d
  do_op (release index) d = do_release index d

  -- The list of ranges, for so many records.
  unfoldable pub check_ranges : (fuel : ℕ) → ℕ → Driver → Verdict (Unit {0})
  unfolding check_index
  check_ranges zero r d = if r == 0 then valid tt else aborted
  check_ranges (suc fuel) r d =
      let rest = λ (p : ℕ). check_ranges fuel p d in
      if r == 0 then valid tt else elim (d.ranges.cells r) [
        | none ↦ aborted
        | some range ↦ check (check_block d range.index false) >> rest range.next
      ]

  abbrev before_op : (fuel : ℕ) → DebugMode → Driver → Verdict (Unit {0})
  before_op fuel dbg_none d = valid tt
  before_op fuel dbg_cheap d = valid tt
  before_op fuel dbg_expensive d = check_ranges fuel d.ranges.list d

  -- Each request adds one range at most, so that their number is fuel enough for the list.
  unfoldable pub replay : (fuel : ℕ) → List TraceOp → Driver → Verdict Driver
  unfolding do_op check_ranges
  replay fuel [] d = valid d
  replay fuel (op ∷ ops) d = do before_op fuel e.mode d; d1 ← do_op op d; replay fuel ops d1

  unfoldable pub eval_mm_valid : List TraceOp → Driver → Verdict Driver
  unfolding replay mm_init mem_reset_brk reset_range_set reinit_trace
  eval_mm_valid ops d = do
    let mm0 = record d.mm { lib = mem_reset_brk d.mm.lib }
    let (done, mm) = mm_init mm0
    check done
    replay (length ops) ops
        (record { mm = mm; trace = reinit_trace d.trace; ranges = reset_range_set d.ranges })

-- What eval_mm_util counts.
pub record Usage : Type 0 where
  pub total_size : ℕ
  pub max_total_size : ℕ
  pub max_heap_size : ℕ

abbrev larger : ℕ → ℕ → ℕ
larger a b = if ltb b a then a else b

-- The heap, the trace, and the bytes that are allocated after a request, as `size_t`.
unfoldable pub util_op : TraceOp → Mm → TraceT → ℕ → Verdict (Mm × TraceT × ℕ)
unfolding malloc realloc free
util_op (alloc index size) mm t total = do
  (p, mm') ← returned (malloc size mm)
  demand (not (is_null p))
  let t' = record t {
    blocks = at_index index p t.blocks;
    block_sizes = at_index index size t.block_sizes;
  }
  valid (mm', t', (total + size) % 2 ^ 64)
util_op (resize index size) mm t total = do
  let old_size = t.block_sizes index
  (p, mm') ← returned (realloc (t.blocks index) size mm)
  demand (if is_null p then size == 0 else true)
  let t' = record t {
    blocks = at_index index p t.blocks;
    block_sizes = at_index index size t.block_sizes;
  }
  valid (mm', t', (total + (size + 2 ^ 64 - old_size)) % 2 ^ 64)
util_op (release (negsuc n)) mm t total = valid (free 0 mm, t, total)
util_op (release (pos index)) mm t total =
    valid (free (t.blocks index) mm, t, (total + 2 ^ 64 - t.block_sizes index) % 2 ^ 64)

unfoldable pub util_ops : List TraceOp → Mm → TraceT → Usage → Verdict Usage
unfolding util_op mem_heapsize
util_ops [] mm t u = valid u
util_ops (op ∷ ops) mm t u = do
  (mm', t', total) ← util_op op mm t u.total_size
  util_ops ops mm' t' (record {
    total_size = total;
    max_total_size = larger total u.max_total_size;
    max_heap_size = larger (mem_heapsize mm'.lib) u.max_heap_size;
  })

-- The quotient of the two sizes is the utilization.
unfoldable pub eval_mm_util : List TraceOp → Mm → TraceT → Verdict Usage
unfolding util_ops mm_init mem_reset_brk reinit_trace
eval_mm_util ops mm t = do
  let (done, mm') = mm_init (record mm { lib = mem_reset_brk mm.lib })
  demand done
  util_ops ops mm' (reinit_trace t)
      (record { total_size = 0; max_total_size = 0; max_heap_size = 0 })

-- A request alone; the sizes of the blocks are not kept.
unfoldable pub speed_op : TraceOp → Mm → TraceT → Verdict (Mm × TraceT)
unfolding malloc realloc free
speed_op (alloc index size) mm t = do
  (p, mm') ← returned (malloc size mm)
  demand (not (is_null p))
  valid (mm', record t { blocks = at_index index p t.blocks })
speed_op (resize index size) mm t = do
  (p, mm') ← returned (realloc (t.blocks index) size mm)
  demand (if is_null p then size == 0 else true)
  valid (mm', record t { blocks = at_index index p t.blocks })
speed_op (release (negsuc n)) mm t = valid (free 0 mm, t)
speed_op (release (pos index)) mm t = valid (free (t.blocks index) mm, t)

unfoldable pub speed_ops : List TraceOp → Mm → TraceT → Verdict (Mm × TraceT)
unfolding speed_op
speed_ops [] mm t = valid (mm, t)
speed_ops (op ∷ ops) mm t = do (mm', t') ← speed_op op mm t; speed_ops ops mm' t'

unfoldable pub eval_mm_speed : List TraceOp → Mm → TraceT → Verdict (Mm × TraceT)
unfolding speed_ops mm_init mem_reset_brk reinit_trace
eval_mm_speed ops mm t = do
  let (done, mm') = mm_init (record mm { lib = mem_reset_brk mm.lib })
  demand done
  speed_ops ops mm' (reinit_trace t)
