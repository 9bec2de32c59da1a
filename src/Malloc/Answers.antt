-- ===== src/Malloc/Answers.antt =====
-- What malloc answers: NULL, or the pointer to a new allocated block.
use cmpsc_473_operating_syst.Common.{
  ℕ, ◌+◌, ◌%◌, ◌≤◌, ◌<◌, ◌≡◌, refl, sym, ◌∙◌, ◌⊎◌, inl, inr, arith, Bool, true, false, List, [],
  ◌∷◌, ◌++◌, leb, Bool-cases,
}
use cmpsc_473_operating_syst.Memlib.{Memory}
use cmpsc_473_operating_syst.Malloc.{Mm, load, size_of, block_size_for, next_node}
use cmpsc_473_operating_syst.Malloc.FreeList.{Linked, first_fit}
use cmpsc_473_operating_syst.Malloc.Blocks.{vacant, used, Row, row_end, Tiled}
use cmpsc_473_operating_syst.Malloc.Vacancies.{In}
use cmpsc_473_operating_syst.Malloc.Around.{Runs-split}
use cmpsc_473_operating_syst.Malloc.Invariant.{IsHeap}

-- Where the new block comes from: a free one, the end of a free one, or the end of the heap.
abbrev pub Comes : ℕ → Row → Row → Row → Type 0
Comes r bs ls rs =
    (bs ≡ ls ++ vacant r ∷ rs)
    ⊎ (((ks : Row) × (e : ℕ) × ((ls ≡ ks ++ vacant e ∷ []) × (bs ≡ ks ++ vacant (e + r) ∷ rs)))
        ⊎ ((bs ≡ ls) × (rs ≡ [])))

-- The heap has a new allocated block, for `n` bytes at the address `p`.
abbrev pub Granted : ℕ → Mm → Row → ℕ → Mm → Type 0
Granted n s bs p s' =
    (ls : Row) × (r : ℕ) × (c : ℕ → ℕ) × (rs : Row) × (xs : List ℕ) × (IsHeap s'
        (ls ++ used r c ∷ rs) xs
      × (s'.lib.heap ≡ s.lib.heap)
      × Comes r bs ls rs
      × (p ≡ row_end (s.lib.heap + 8) ls + 8)
      × (p % 16 ≡ 0)
      × (n + 8 ≤ r))

-- There is no memory: no free block is large enough, and the break cannot move so far.
abbrev pub Refused : ℕ → Mm → List ℕ → ℕ → Mm → Type 0
Refused n s xs p s' =
    (p ≡ 0)
    × (s' ≡ s)
    × ((x : ℕ) → In x xs → size_of (load s x) < block_size_for n)
    × (s.lib.mem_max_addr < s.lib.mem_brk + block_size_for n)

row_end_aligned :
    (mem : Memory) (u : Bool) (a : ℕ) (ls : Row)
    → Tiled mem u a ls
    → a % 16 ≡ 8
    → row_end a ls % 16 ≡ 8
row_end_aligned mem u a [] t e = e
row_end_aligned mem u a (vacant k ∷ ls) ((sized, header, rest), t) e =
    row_end_aligned mem false (a + k) ls t (omega arith)
row_end_aligned mem u a (used k c ∷ ls) ((sized, header, rest), t) e =
    row_end_aligned mem true (a + k) ls t (omega arith)

pub pointer_aligned :
    (s : Mm) (ls rs : Row) (xs : List ℕ)
    → IsHeap s (ls ++ rs) xs
    → (row_end (s.lib.heap + 8) ls + 8) % 16 ≡ 0
pointer_aligned s ls rs xs h =
    let (low, align, end, most, limit) = h.fits in
    omega (
      arith,
      row_end_aligned s.mem true (s.lib.heap + 8) ls
          (Runs-split s.mem true (s.lib.heap + 8) ls rs h.runs).0 (omega arith),
    )

pub first_fit_null :
    (n : ℕ) (s : Mm) (prev p : ℕ) (xs : List ℕ)
    → Linked s prev p xs
    → first_fit n s xs ≡ 0
    → (x : ℕ) → In x xs
    → size_of (load s x) < n
first_fit_null n s prev p [] h null x i = elim i [ ]
first_fit_null n s prev p (y ∷ ys) (at, there, back, rest) null x i =
    elim (Bool-cases (leb n (size_of (load s y)))) [
      | inl fits ↦
          let here : first_fit n s (y ∷ ys) ≡ y = rw fits refl in absurd (omega (arith, here))
      | inr small ↦
          let later : first_fit n s (y ∷ ys) ≡ first_fit n s ys = rw small refl in
          elim i [
            | inl e ↦ rw e (ground arith)
            | inr j ↦ first_fit_null n s y (load s (next_node y)) ys rest (sym later ∙ null) x j
          ]
    ]
