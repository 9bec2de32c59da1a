-- ===== src/Malloc/Init.antt =====
-- mm_init makes a heap of one free block.
use cmpsc_473_operating_syst.Common.{
  ℕ, ◌+◌, ◌-◌, ◌%◌, ◌^◌, ◌≤◌, ◌<◌, ◌≡◌, refl, ap, sym, ◌∙◌, ◌⊎◌, inl, inr, arith, Bool, true, false,
  [], ◌∷◌, Option, none, some, ltb, Bool-cases,
}
use cmpsc_473_operating_syst.Memlib.{pos, MemLib, mm_sbrk, mm_heap_hi}
use cmpsc_473_operating_syst.Malloc.{Mm, load, put, toggle_2, mm_init}
use cmpsc_473_operating_syst.Malloc.FreeList.{load-put, load-put_ne}
use cmpsc_473_operating_syst.Malloc.Blocks.{vacant}
use cmpsc_473_operating_syst.Malloc.Invariant.{IsHeap}

-- The writes, where the heap starts at `h` and ends at `end`.
abbrev initialized : ℕ → ℕ → Mm → Mm
initialized h end s0 =
    let s4 = put (put (put (put s0 h 1) (h + 8) 4096) (h + 24) 0) (h + 16) 0 in
    let s5 = put s4 (h + 8) (toggle_2 (load s4 (h + 8))) in
    put (put (record s5 { free_block_pointer = h + 8 }) (end - 16) 4096) (end - 8) 1

abbrev init_from : Mm → Option ℕ × MemLib → Bool × Mm
init_from s (none, lib) = (false, record s { lib = lib })
init_from s (some h, lib) = (true, initialized h (lib.mem_brk - 1 + 1) (record s { lib = lib }))

mm_init-init_from : (s : Mm) → mm_init s ≡ init_from s (mm_sbrk (pos 4112) s.lib)
unfolding mm_init mm_heap_hi
mm_init-init_from s = ground arith

module _ (s : Mm) (empty : s.lib.mem_brk ≡ s.lib.heap) (low : 0 < s.lib.heap) where
  abbrev h : ℕ
  h = s.lib.heap

  abbrev grown : Mm
  grown = record s { lib = record s.lib { mem_brk = s.lib.mem_brk + 4112 } }

  abbrev ready : Mm
  ready = initialized h (h + 4112) grown

  sbrk_refused : s.lib.mem_max_addr < h + 4112 → mm_sbrk (pos 4112) s.lib ≡ (none, s.lib)
  unfolding mm_sbrk
  sbrk_refused past = ground arith

  sbrk_grown : h + 4112 ≤ s.lib.mem_max_addr → mm_sbrk (pos 4112) s.lib ≡ (some h, grown.lib)
  unfolding mm_sbrk
  sbrk_grown within = rw (← empty) (ground arith)

  words :
      (load ready (h + 8) ≡ 4098)
      × (load ready (h + 16) ≡ 0)
      × (load ready (h + 24) ≡ 0)
      × (load ready (h + 4096) ≡ 4096)
      × (load ready (h + 4104) ≡ 1)
  words =
      let s1 = put grown h 1 in
      let s2 = put s1 (h + 8) 4096 in
      let s3 = put s2 (h + 24) 0 in
      let s4 = put s3 (h + 16) 0 in
      let size : load s4 (h + 8) ≡ 4096 =
        load-put_ne s3 (h + 16) 0 (h + 8) (inl (omega arith))
        ∙ load-put_ne s2 (h + 24) 0 (h + 8) (inl (omega arith))
        ∙ load-put s1 (h + 8) 4096 (omega arith) in
      let mark : toggle_2 (load s4 (h + 8)) ≡ 4098 = ap toggle_2 size ∙ ground arith in
      let m = toggle_2 (load s4 (h + 8)) in
      let s5 = put s4 (h + 8) m in
      let s6 = record s5 { free_block_pointer = h + 8 } in
      let s7 = put s6 (h + 4112 - 16) 4096 in
      let s8 = put s7 (h + 4112 - 8) 1 in
      let kept = λ (x v : ℕ) (below : x + 8 ≤ h + 4096) (e : load s6 x ≡ v).
        load-put_ne s7 (h + 4112 - 8) 1 x (inl (omega arith))
        ∙ load-put_ne s6 (h + 4112 - 16) 4096 x (inl (omega arith))
        ∙ e in
      let foot : h + 4112 - 16 ≡ h + 4096 = omega arith in
      let last : h + 4112 - 8 ≡ h + 4104 = omega arith in
      (
        kept (h + 8) 4098 (omega arith) (load-put s4 (h + 8) m (rw mark (omega arith)) ∙ mark),
        kept (h + 16) 0 (omega arith) (
            load-put_ne s4 (h + 8) m (h + 16) (inr (omega arith))
            ∙ load-put s3 (h + 16) 0 (omega arith)),
        kept (h + 24) 0 (omega arith) (
            load-put_ne s4 (h + 8) m (h + 24) (inr (omega arith))
            ∙ load-put_ne s3 (h + 16) 0 (h + 24) (inr (omega arith))
            ∙ load-put s2 (h + 24) 0 (omega arith)),
        load-put_ne s7 (h + 4112 - 8) 1 (h + 4096) (inl (omega arith))
            ∙ ap (λ t. load s7 t) (sym foot)
            ∙ load-put s6 (h + 4112 - 16) 4096 (omega arith),
        ap (λ t. load s8 t) (sym last) ∙ load-put s7 (h + 4112 - 8) 1 (omega arith),
      )

  ready-IsHeap :
      h % 16 ≡ 0
      → s.lib.mem_max_addr < 2 ^ 64
      → h + 4112 ≤ s.lib.mem_max_addr
      → IsHeap ready (vacant 4096 ∷ []) ((h + 8) ∷ [])
  ready-IsHeap align limit within =
      let (header, next, prev, footer, epilogue) = words in
      let sum : h + 8 + 4096 ≡ h + 4104 = omega arith in
      let first : h + 8 + 8 ≡ h + 16 = omega arith in
      let last : h + 8 + 16 ≡ h + 24 = omega arith in
      record {
        fits = (low, align, omega arith, omega arith, limit);
        runs = (
          (
            (
              (omega arith, omega arith),
              header,
              ap (λ t. load ready t) (let e : h + 8 + 4096 - 8 ≡ h + 4096 = omega arith in e)
                  ∙ footer,
            ),
            tt,
          ),
          rw sum epilogue,
        );
        linked = (refl, omega arith, rw last prev, rw first next);
        placed = (omega arith, tt, tt);
        same = λ x. (λ i. i, λ i. i);
        counted = refl;
      }

-- On an empty memory system whose start is a multiple of 16, not 0, with addresses of 64 bits: if it
-- has room for 4112 bytes, mm_init answers true and leaves a heap in order, with one free block of 4096
-- bytes; otherwise it answers false and changes nothing.
pub mm_init-IsHeap :
    (s : Mm)
    → s.lib.mem_brk ≡ s.lib.heap
    → 0 < s.lib.heap
    → s.lib.heap % 16 ≡ 0
    → s.lib.mem_max_addr < 2 ^ 64
    → ((s.lib.mem_max_addr < s.lib.heap + 4112) × (mm_init s ≡ (false, s)))
      ⊎ ((s' : Mm) × ((mm_init s ≡ (true, s'))
            × IsHeap s' (vacant 4096 ∷ []) ((s.lib.heap + 8) ∷ [])))
mm_init-IsHeap s empty low align limit =
    elim (Bool-cases (ltb s.lib.mem_max_addr (s.lib.heap + 4112))) [
      | inl past ↦
          let over : s.lib.mem_max_addr < s.lib.heap + 4112 = ground arith in
          inl (over, mm_init-init_from s ∙ ap (init_from s) (sbrk_refused s empty low over))
      | inr fits ↦
          let within : s.lib.heap + 4112 ≤ s.lib.mem_max_addr = ground arith in
          let end : s.lib.mem_brk + 4112 - 1 + 1 ≡ s.lib.heap + 4112 = omega arith in
          inr (
            ready s empty low,
            (
              mm_init-init_from s
                  ∙ ap (init_from s) (sbrk_grown s empty low within)
                  ∙ ap (λ t. (true, initialized s.lib.heap t (grown s empty low))) end,
              ready-IsHeap s empty low align limit within,
            ),
          )
    ]
