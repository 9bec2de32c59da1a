-- ===== src/Malloc/Extend.antt =====
-- extend puts an allocated block behind the last one.
use cmpsc_473_operating_syst.Common.{
  ℕ, ◌+◌, ◌-◌, ◌^◌, ◌≤◌, ◌<◌, ◌≡◌, refl, ap, sym, ◌∙◌, ◌⊎◌, inl, inr, arith, Bool, true, false,
  List, [], ◌∷◌, ◌++◌, length, ltb, Bool-cases, Option, none, some,
}
use mathlib.Core.Path.{subst}
use mathlib.Core.List.{append-nil}
use cmpsc_473_operating_syst.Memlib.{pos, MemLib, mm_sbrk, mm_heap_hi}
use cmpsc_473_operating_syst.Malloc.{Mm, load, put, with_1, keep_2, signed, extend}
use cmpsc_473_operating_syst.Malloc.FreeList.{Outside, load-put, load-put_ne}
use cmpsc_473_operating_syst.Malloc.Blocks.{
  used, Row, row_end, row_end-append, last_used, vacancies, vacancies-append, flag, Sized,
  Tiled-write, Loose-above,
}
use cmpsc_473_operating_syst.Malloc.Vacancies.{In, Same, vacancies_within}
use cmpsc_473_operating_syst.Malloc.Around.{Runs-append, keep_2-flag}
use cmpsc_473_operating_syst.Malloc.Invariant.{IsHeap, Linked-put}

-- The two writes, at the epilogue `at` and the new one.
abbrev extended : ℕ → ℕ → Bool → Mm → Mm
extended at r u s = put (put s at (r + 1 + flag u)) (at + r) 3

-- What follows the call of mm_sbrk.
abbrev extend_from : ℕ → Mm → Option ℕ × MemLib → ℕ × Mm
extend_from required s (none, lib) = (0, record s { lib = lib })
extend_from required s (some new_block_ptr, lib) =
    let s0 = record s { lib = lib } in
    let header = new_block_ptr - 8 in
    let s1 = put s0 header (keep_2 (load s0 header) (with_1 required)) in
    (new_block_ptr, put s1 (lib.mem_brk - 1 + 1 - 8) 3)

extend-extend_from :
    (required : ℕ) (s : Mm)
    → extend required s ≡ extend_from required s (mm_sbrk (signed required) s.lib)
unfolding extend mm_heap_hi
extend-extend_from required s = ground arith

module _ (s : Mm) (bs : Row) (xs : List ℕ) (r : ℕ) (sized : Sized r) (h : IsHeap s bs xs) where
  abbrev a : ℕ
  a = s.lib.heap + 8

  abbrev at : ℕ
  at = row_end a bs

  abbrev u : Bool
  u = last_used true bs

  abbrev grown : Mm
  grown = record s { lib = record s.lib { mem_brk = s.lib.mem_brk + r } }

  abbrev s' : Mm
  s' = extended at r u grown

  flag-le : (v : Bool) → flag v ≤ 2
  flag-le true = omega arith
  flag-le false = omega arith

  sbrk_refused :
      r < 2 ^ 63 → s.lib.mem_max_addr < s.lib.mem_brk + r → mm_sbrk (signed r) s.lib ≡ (none, s.lib)
  unfolding mm_sbrk
  sbrk_refused small past =
      let positive : signed r ≡ pos r = ground arith in rw positive (ground arith)

  sbrk_grown :
      r < 2 ^ 63
      → s.lib.mem_brk + r ≤ s.lib.mem_max_addr
      → mm_sbrk (signed r) s.lib ≡ (some s.lib.mem_brk, grown.lib)
  unfolding mm_sbrk
  sbrk_grown small within =
      let positive : signed r ≡ pos r = ground arith in rw positive (ground arith)

  extend_refused : r < 2 ^ 63 → s.lib.mem_max_addr < s.lib.mem_brk + r → extend r s ≡ (0, s)
  extend_refused small past =
      extend-extend_from r s ∙ ap (extend_from r s) (sbrk_refused small past)

  extend-extended : r < 2 ^ 63 → s.lib.mem_brk + r ≤ s.lib.mem_max_addr → extend r s ≡ (at + 8, s')
  extend-extended small within =
      let (low, align, end, most, limit) = h.fits in
      let one : with_1 r ≡ r + 1 = let z = sized.1 in ground arith in
      let kept : keep_2 (load s at) (r + 1) ≡ r + 1 + flag u =
        ap (λ t. keep_2 t (r + 1)) h.runs.1
        ∙ keep_2-flag 1 (r + 1) u (omega arith) (let z = sized.1 in omega arith) in
      let old : s.lib.mem_brk - 8 ≡ at = omega arith in
      let new : s.lib.mem_brk + r - 1 + 1 - 8 ≡ at + r = omega arith in
      extend-extend_from r s
      ∙ ap (extend_from r s) (sbrk_grown small within)
      ∙ rw (new, old, one, kept, sym end) refl

  extend-IsHeap :
      s.lib.mem_brk + r ≤ s.lib.mem_max_addr
      → IsHeap s' (bs ++ used r (λ (i : ℕ). s'.mem (at + 8 + i)) ∷ []) xs
  extend-IsHeap within =
      let (low, align, end, most, limit) = h.fits in
      let c = λ (i : ℕ). s'.mem (at + 8 + i) in
      let new = used r c ∷ [] in
      let s1 = put grown at (r + 1 + flag u) in
      let tiled1 =
        Tiled-write s.mem true a at (r + 1 + flag u) bs (Loose-above at a bs (omega arith))
          h.runs.0 in
      let tiled =
        Tiled-write s1.mem true a (at + r) 3 bs (Loose-above (at + r) a bs (omega arith)) tiled1 in
      let header : load s' at ≡ r + 1 + flag u =
        load-put_ne s1 (at + r) 3 at (inl (let z = sized.0 in omega arith))
        ∙ load-put grown at (r + 1 + flag u) (omega (arith, flag-le u)) in
      let before =
        λ (x : ℕ) (i : In x xs). vacancies_within s.mem true a x bs h.runs.0 ((h.same x).0 i) in
      let outside1 : (x : ℕ) → In x xs → Outside at x = λ x i. inr (omega (arith, before x i)) in
      let outside2 : (x : ℕ) → In x xs → Outside (at + r) x =
        λ x i. inr (omega (arith, before x i)) in
      let free : vacancies a (bs ++ new) ≡ vacancies a bs =
        vacancies-append a bs new ∙ append-nil (vacancies a bs) in
      record {
        fits = (low, align, ap (λ t. t + 8) (row_end-append a bs new) ∙ omega arith, within, limit);
        runs =
            Runs-append s'.mem true a bs new tiled
              (((sized, header, λ i small. refl), tt), load-put s1 (at + r) 3 (omega arith));
        linked =
            Linked-put s1 (at + r) 3 0 s.free_block_pointer xs outside2
              (Linked-put grown at (r + 1 + flag u) 0 s.free_block_pointer xs outside1 h.linked);
        placed = h.placed;
        same = subst (Same xs) (sym free) h.same;
        counted = h.counted ∙ ap length (sym free);
      }

  pub extend_cases :
      r < 2 ^ 63
      → ((extend r s ≡ (0, s)) × (s.lib.mem_max_addr < s.lib.mem_brk + r))
        ⊎ ((t : Mm) × (c : ℕ → ℕ) × ((extend r s ≡ (at + 8, t))
              × (t.lib.heap ≡ s.lib.heap)
              × IsHeap t (bs ++ used r c ∷ []) xs))
  extend_cases small = elim (Bool-cases (ltb s.lib.mem_max_addr (s.lib.mem_brk + r))) [
    | inl past ↦
        let over : s.lib.mem_max_addr < s.lib.mem_brk + r = ground arith in
        inl (extend_refused small over, over)
    | inr fits ↦
        let within : s.lib.mem_brk + r ≤ s.lib.mem_max_addr = ground arith in
        inr (
          s',
          λ (i : ℕ). s'.mem (at + 8 + i),
          (extend-extended small within, refl, extend-IsHeap within),
        )
  ]
