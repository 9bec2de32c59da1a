-- ===== src/Driver/Placed.antt =====
-- The blocks of malloc pass the first checks of the driver.
use cmpsc_473_operating_syst.Common.{
  ℕ, ◌+◌, ◌-◌, ◌^◌, ◌≤◌, ◌<◌, ◌≡◌, ◌∙◌, ap, sym, ◌⊎◌, inl, inr, arith, false, some, List, ◌∷◌, ◌++◌,
  Option,
}
use mathlib.Core.Path.{subst}
use cmpsc_473_operating_syst.Memlib.{mm_heap_lo, mm_heap_hi}
use cmpsc_473_operating_syst.Malloc.{Mm, malloc}
use cmpsc_473_operating_syst.Malloc.Blocks.{used, Row, row_end, row_end-le, row_end-append}
use cmpsc_473_operating_syst.Malloc.Invariant.{IsHeap}
use cmpsc_473_operating_syst.Malloc.Answers.{Granted}
use cmpsc_473_operating_syst.Malloc.Allocate.{malloc-Granted}
use cmpsc_473_operating_syst.Driver.{misplaced}

Granted-misplaced :
    (n : ℕ) (s : Mm) (bs : Row) (p : ℕ) (s' : Mm)
    → 0 < n
    → Granted n s bs p s'
    → misplaced s'.lib p (p + n - 1) ≡ false
unfolding mm_heap_lo mm_heap_hi
Granted-misplaced n s bs p s' some_bytes (ls, r, c, rs, xs, (h, same, comes, at, aligned, room)) =
    let (low, align, end, most, limit) = h.fits in
    let before = row_end-le (s.lib.heap + 8) ls in
    let behind = row_end-le (row_end (s.lib.heap + 8) ls + r) rs in
    let whole : row_end (row_end (s.lib.heap + 8) ls + r) rs + 8 ≡ s'.lib.mem_brk =
      ap (λ t. t + 8) (sym (row_end-append (s.lib.heap + 8) ls (used r c ∷ rs)))
      ∙ ap (λ t. row_end (t + 8) (ls ++ used r c ∷ rs) + 8) (sym same)
      ∙ end in
    ground arith

Some-injective :
    (p q : ℕ) (s t : Mm) → ◌≡◌ {A = Option (ℕ × Mm)} (some (p, s)) (some (q, t)) → (p ≡ q) × (s ≡ t)
Some-injective p q s t e = (cc, cc)

-- In a heap in order, for a request of some bytes, 2 ^ 63 - 32 at most: what malloc answers is NULL,
-- or a payload that the driver finds aligned and within the heap.
pub malloc-misplaced :
    (n : ℕ) (s : Mm) (bs : Row) (xs : List ℕ) (p : ℕ) (s' : Mm)
    → IsHeap s bs xs
    → 0 < n
    → n + 32 ≤ 2 ^ 63
    → malloc n s ≡ some (p, s')
    → (p ≡ 0) ⊎ (misplaced s'.lib p (p + n - 1) ≡ false)
malloc-misplaced n s bs xs p s' h some_bytes small e =
    let (q, t, (e', outcome)) = malloc-Granted n s bs xs h some_bytes small in
    let (same, same') = Some-injective p q s' t (sym e ∙ e') in
    elim outcome [
      | inl refused ↦ inl (same ∙ refused.0)
      | inr granted ↦ inr (
          subst (λ u. misplaced u.lib p (p + n - 1) ≡ false) (sym same')
            (subst (λ v. misplaced t.lib v (v + n - 1) ≡ false) (sym same)
              (Granted-misplaced n s bs q t some_bytes granted)))
    ]
