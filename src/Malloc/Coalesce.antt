-- ===== src/Malloc/Coalesce.antt =====
-- coalesce: a free block and its free neighbours become one.
use cmpsc_473_operating_syst.Common.{
  ℕ, ◌+◌, ◌≤◌, ◌<◌, ◌≡◌, refl, ap, sym, ◌∙◌, inl, inr, arith, true, false, List, [], ◌∷◌, ◌++◌,
  length, ltb, ◌==◌, if◌then◌else◌,
}
use mathlib.Core.Path.{subst}
use cmpsc_473_operating_syst.Memlib.{MemLib}
use cmpsc_473_operating_syst.Malloc.{Mm, has_1, remove_from_free_list}
use cmpsc_473_operating_syst.Malloc.Release.{mergeable, merge_next, coalesce}
use cmpsc_473_operating_syst.Malloc.Blocks.{
  vacant, used, Row, row_end, last_used, size, vacancies, vacancies-append, flag, Sized, Tiled,
}
use cmpsc_473_operating_syst.Malloc.Vacancies.{In, Same}
use cmpsc_473_operating_syst.Malloc.Members.{Same-front, length-front}
use cmpsc_473_operating_syst.Malloc.Around.{Runs, Runs-split}
use cmpsc_473_operating_syst.Malloc.Invariant.{IsHeap, Fits}
use cmpsc_473_operating_syst.Malloc.Region.{Region, Inside, Region-remove, merged, merged-IsHeap}
use cmpsc_473_operating_syst.Malloc.Merges.{mergeable_lem, merge_next_far, merge_next_used}

-- The free blocks `ms` of a heap, as a region.
pub IsHeap-Region :
    (s : Mm) (ls ms rs : Row) (xs : List ℕ) (hi : ℕ)
    → let lo = row_end (s.lib.heap + 8) ls in
      IsHeap s (ls ++ (ms ++ rs)) xs
      → row_end lo ms ≡ hi
      → last_used (last_used true ls) ms ≡ false
      → Region s.lib ls rs hi (vacancies lo ms) xs s × Tiled s.mem (last_used true ls) lo ms
IsHeap-Region s ls ms rs xs hi h at free =
    let a = s.lib.heap + 8 in
    let lo = row_end a ls in
    let (left, rest) = Runs-split s.mem true a ls (ms ++ rs) h.runs in
    let (middle, right) = Runs-split s.mem (last_used true ls) lo ms rs rest in
    let right' : Runs s.mem false hi rs =
      subst (λ u. Runs s.mem u hi rs) free
        (subst (λ t. Runs s.mem (last_used (last_used true ls) ms) t rs) at right) in
    let all : vacancies a (ls ++ (ms ++ rs))
        ≡ vacancies a ls ++ (vacancies lo ms ++ vacancies hi rs) =
      vacancies-append a ls (ms ++ rs)
      ∙ ap (λ t. vacancies a ls ++ t)
          (vacancies-append lo ms rs ∙ ap (λ t. vacancies lo ms ++ vacancies t rs) at) in
    (
      record {
        shape = ((refl, left, right'), h.linked);
        placed = h.placed;
        same =
            Same-front xs (vacancies a ls) (vacancies lo ms) (vacancies hi rs)
              (subst (Same xs) all h.same);
        counted =
            h.counted
            ∙ ap length all
            ∙ length-front (vacancies a ls) (vacancies lo ms) (vacancies hi rs);
      },
      middle,
    )

-- A free block behind that is too near to the end of the heap to be merged.
abbrev pub NextKept : ℕ → ℕ → Row → Type 0
NextKept brk a [] = Unit {0}
NextKept brk a (vacant k ∷ rs) = brk ≤ a + 57
NextKept brk a (used k c ∷ rs) = Unit {0}

-- One before.
abbrev pub PrevKept : ℕ → ℕ → Row → Type 0
PrevKept brk a [] = Unit {0}
PrevKept brk a (b ∷ c ∷ bs) = PrevKept brk (a + size b) (c ∷ bs)
PrevKept brk a (vacant k ∷ []) = brk ≤ a + 57
PrevKept brk a (used k c ∷ []) = Unit {0}

pub mergeable_at :
    (lib : MemLib) (s : Mm) (x : ℕ)
    → s.lib ≡ lib
    → lib.heap + 8 ≤ x
    → 57 ≤ lib.mem_brk
    → mergeable s x ≡ ltb (x + 57) lib.mem_brk
mergeable_at lib s x e low high =
    mergeable_lem s x (rw e low) (rw e high) ∙ ap (λ l. ltb (x + 57) l.mem_brk) e

-- Where the block behind is allocated, is the epilogue, or is too near to the end of the heap.
pub next_kept :
    (lib : MemLib) (s : Mm) (n m : ℕ) (rs : Row)
    → s.lib ≡ lib
    → Runs s.mem false n rs
    → row_end n rs + 8 ≡ lib.mem_brk
    → 57 ≤ lib.mem_brk
    → lib.heap + 8 ≤ n
    → NextKept lib.mem_brk n rs
    → merge_next n m s ≡ (m, s)
next_kept lib s n m [] e (t, last) end large low kept =
    merge_next_far s n m (mergeable_at lib s n e low (omega arith) ∙ ground arith)
next_kept lib s n m (vacant k ∷ rs) e r end large low kept =
    merge_next_far s n m (mergeable_at lib s n e low (omega arith) ∙ ground arith)
next_kept lib s n m (used k c ∷ rs) e (((sized, header, bytes), t), last) end large low kept =
    let odd : has_1 (k + 1 + flag false) ≡ true = let z = sized in ground arith in
    merge_next_used s n m (ap has_1 header ∙ odd)

module _ (lib : MemLib) (ls : Row) (rs : Row) (K : ℕ) (k b : ℕ) where
  abbrev lo : ℕ
  lo = row_end (lib.heap + 8) ls

  -- The block itself goes out of the list, and the merged one in.
  pub finish :
      (s s2 : Mm) (xs : List ℕ)
      → Sized K
      → k < K
      → lo ≤ b
      → b + 32 ≤ lo + K
      → last_used true ls ≡ true
      → Fits lib (ls ++ vacant K ∷ rs)
      → Region lib ls rs (lo + K) (b ∷ []) xs s2
      → coalesce b s ≡ (if K == k then s2 else merged lo K (remove_from_free_list b s2))
      → (xs' : List ℕ) × (((coalesce b s).lib ≡ lib)
          × IsHeap (coalesce b s) (ls ++ vacant K ∷ rs) xs')
  finish s s2 xs sized more low high before fits r e =
      let z = sized in
      let inside : Inside lib ls rs (lo + K) (b ∷ []) = only in
      let (xs', (r', kept)) =
        Region-remove lib ls rs (lo + K) s2 [] b [] xs r inside (omega arith) (λ i. i) in
      let other : (K == k) ≡ false = ground arith in
      let e' : coalesce b s ≡ merged lo K (remove_from_free_list b s2) =
        e ∙ ap (λ t. if t then s2 else merged lo K (remove_from_free_list b s2)) other in
      (
        lo ∷ xs',
        subst (λ t. (t.lib ≡ lib) × IsHeap t (ls ++ vacant K ∷ rs) (lo ∷ xs')) (sym e')
            (merged-IsHeap lib ls K rs xs' (remove_from_free_list b s2) sized before fits r'),
      )
    where
      only : (x : ℕ) → In x (b ∷ []) → (lo ≤ x) × (x + 32 ≤ lo + K)
      only x (inl e) = omega arith
      only x (inr i) = elim i [ ]
