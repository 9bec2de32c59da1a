-- ===== src/Malloc/Reclaim.antt =====
-- free: what becomes of an allocated block.
use cmpsc_473_operating_syst.Common.{
  ℕ, ◌+◌, ◌-◌, ◌≤◌, ◌<◌, ◌≡◌, refl, ap, sym, ◌∙◌, inl, inr, arith, true, false, List, [], ◌∷◌, ◌++◌,
  ltb, Bool-cases,
}
use mathlib.Core.Path.{subst}
use mathlib.Core.List.{append_assoc}
use cmpsc_473_operating_syst.Malloc.{Mm, load}
use cmpsc_473_operating_syst.Malloc.Release.{mergeable, merge_prev, merge_next, coalesce, free}
use cmpsc_473_operating_syst.Malloc.Blocks.{
  vacant, used, Row, row_end, row_end-le, row_end-append, last_used, last_used-append, flag,
}
use cmpsc_473_operating_syst.Malloc.Invariant.{IsHeap}
use cmpsc_473_operating_syst.Malloc.Vacant.{IsHeap-HasVacant}
use cmpsc_473_operating_syst.Malloc.Freed.{freed-IsHeap}
use cmpsc_473_operating_syst.Malloc.Merges.{merge_prev_used, merge_prev_far, coalesce-merges}
use cmpsc_473_operating_syst.Malloc.Coalesce.{mergeable_at, IsHeap-Region, NextKept, next_kept}
use cmpsc_473_operating_syst.Malloc.Neighbours.{Joined, Joined-prev, Joined-next, size_of_word}
use cmpsc_473_operating_syst.Malloc.Both.{Joined-both}
use cmpsc_473_operating_syst.Malloc.Joining.{
  Separate, Joins, last_cases, Separate-last, PrevKept-used, PrevKept-far, NextKept-far, next_cases,
  Joined-size,
}

-- No neighbour is merged.
alone :
    (s : Mm) (ls : Row) (k : ℕ) (rs : Row) (xs : List ℕ)
    → let b = row_end (s.lib.heap + 8) ls in
      IsHeap s (ls ++ vacant k ∷ rs) xs
      → merge_prev b s ≡ (b, k, s)
      → NextKept s.lib.mem_brk (b + k) rs
      → Joined s.lib ls k rs (coalesce b s)
alone s ls k rs xs h prev kept =
    let a = s.lib.heap + 8 in
    let b = row_end a ls in
    let v = IsHeap-HasVacant s ls k rs xs h in
    let (low, align, end, most, limit) = h.fits in
    let end' : row_end (b + k) rs + 8 ≡ s.lib.mem_brk =
      ap (λ t. t + 8) (sym (row_end-append a ls (vacant k ∷ rs))) ∙ end in
    let next : merge_next (b + k) k s ≡ (k, s) =
      next_kept s.lib s (b + k) k rs refl v.shape.0.2 end'
        (let z = v.sized in omega (arith, row_end-le (b + k) rs, row_end-le a ls))
        (omega (arith, row_end-le a ls)) kept in
    let same : coalesce b s ≡ s =
      coalesce-merges b s s s k b k k
        (size_of_word (load s b) k (last_used true ls) v.sized.1 v.header) v.sized.1 prev next
      ∙ ground arith in
    (xs, subst (λ t. (t.lib ≡ s.lib) × IsHeap t (ls ++ vacant k ∷ rs) xs) (sym same) (refl, h))

-- Behind an allocated block, or first in the heap.
behind_used :
    (s : Mm) (ls : Row) (k : ℕ) (rs : Row) (xs : List ℕ)
    → IsHeap s (ls ++ vacant k ∷ rs) xs
    → last_used true ls ≡ true
    → Joins s.lib ls k rs (coalesce (row_end (s.lib.heap + 8) ls) s)
behind_used s ls k rs xs h e =
    let a = s.lib.heap + 8 in
    let b = row_end a ls in
    let v = IsHeap-HasVacant s ls k rs xs h in
    let first = PrevKept-used s.lib.mem_brk a ls e in
    elim (next_cases s.lib.mem_brk (b + k) rs) [
      | inl kept ↦
          let prev = merge_prev_used s b k v.sized.1 (v.header ∙ ap (λ t. k + flag t) e) in
          (
            ls,
            0,
            0,
            rs,
            (
              inl (refl, refl, first),
              inl (refl, refl, kept),
              Joined-size s.lib (coalesce b s) ls k (0 + k + 0) rs (omega arith)
                  (alone s ls k rs xs h prev kept),
            ),
          )
      | inr (m, ts, (row, near)) ↦
          let h' = subst (λ t. IsHeap s (ls ++ vacant k ∷ t) xs) row h in
          (
            ls,
            0,
            m,
            ts,
            (
              inl (refl, refl, first),
              inr row,
              Joined-size s.lib (coalesce b s) ls (k + m) (0 + k + m) ts (omega arith)
                  (Joined-next s ls k m ts xs h' e near),
            ),
          )
    ]

-- Behind a free block.
module _ (s : Mm) (ks : Row) (j k : ℕ) (rs : Row) (xs : List ℕ)
    (h : IsHeap s ((ks ++ vacant j ∷ []) ++ vacant k ∷ rs) xs) where
  abbrev a : ℕ
  a = s.lib.heap + 8

  abbrev q : ℕ
  q = row_end a ks

  abbrev ls : Row
  ls = ks ++ vacant j ∷ []

  at : row_end a ls ≡ q + j
  at = row_end-append a ks (vacant j ∷ [])

  h' : IsHeap s (ks ++ vacant j ∷ vacant k ∷ rs) xs
  h' = subst (λ t. IsHeap s t xs) (append_assoc ks (vacant j ∷ []) (vacant k ∷ rs)) h

  behind_far : (far : s.lib.mem_brk ≤ q + 57) → Joins s.lib ls k rs (coalesce (row_end a ls) s)
  behind_far far =
      let b = row_end a ls in
      let v = IsHeap-HasVacant s ls k rs xs h in
      let (sized, word_j, footer) =
        (IsHeap-Region s ks (vacant j ∷ vacant k ∷ []) rs xs (q + j + k) h' refl refl).1.0 in
      let (low, align, end, most, limit) = h.fits in
      let kept = NextKept-far s.lib.mem_brk (b + k) rs (omega (arith, at)) in
      let back : b - j ≡ q = omega (arith, at) in
      let no_mark : load s b ≡ k + flag false =
        v.header ∙ ap (λ t. k + flag t) (last_used-append true ks (vacant j ∷ [])) in
      let unreached : mergeable s (b - j) ≡ false =
        ap (mergeable s) back
        ∙ mergeable_at s.lib s q refl (row_end-le a ks) (
            let z = v.sized in
            omega (arith, v.before, at, row_end-append a ls (vacant k ∷ rs), row_end-le (b + k) rs))
        ∙ ground arith in
      let prev =
        merge_prev_far s b k v.sized.1 j no_mark (ap (λ t. load s (t - 8)) at ∙ footer) sized.1
          unreached in
      (
        ls,
        0,
        0,
        rs,
        (
          inl (refl, refl, PrevKept-far s.lib.mem_brk a ks j far),
          inl (refl, refl, kept),
          Joined-size s.lib (coalesce b s) ls k (0 + k + 0) rs (omega arith)
              (alone s ls k rs xs h prev kept),
        ),
      )

  behind_near :
      last_used true ks ≡ true
      → q + 57 < s.lib.mem_brk
      → Joins s.lib ls k rs (coalesce (row_end a ls) s)
  behind_near e near = elim (next_cases s.lib.mem_brk (row_end a ls + k) rs) [
    | inl kept ↦
        let there : row_end a ls + k ≡ q + (j + k) = omega (arith, at) in
        (
          ks,
          j,
          0,
          rs,
          (
            inr refl,
            inl (refl, refl, kept),
            subst (λ t. Joined s.lib ks (j + k + 0) rs (coalesce t s)) (sym at)
                (Joined-size s.lib (coalesce (q + j) s) ks (j + k) (j + k + 0) rs (omega arith) (
                  Joined-prev s ks j k rs xs h' e near
                    (subst (λ t. NextKept s.lib.mem_brk t rs) there kept))),
          ),
        )
    | inr (m, ts, (row, near')) ↦ (
      ks,
      j,
      m,
      ts,
      (
        inr refl,
        inr row,
        subst (λ t. Joined s.lib ks (j + k + m) ts (coalesce t s)) (sym at)
            (Joined-both s ks j k m ts xs
              (subst (λ t. IsHeap s (ks ++ vacant j ∷ vacant k ∷ t) xs) row h') e near
              (subst (λ t. t + k + 57 < s.lib.mem_brk) at near')),
      ),
    )
  ]

  behind_free : last_used true ks ≡ true → Joins s.lib ls k rs (coalesce (row_end a ls) s)
  behind_free e = elim (Bool-cases (ltb (q + 57) s.lib.mem_brk)) [
    | inl near ↦ behind_near e (ground arith)
    | inr far ↦ behind_far (ground arith)
  ]

coalesce-Joins :
    (s : Mm) (ls : Row) (k : ℕ) (rs : Row) (xs : List ℕ)
    → IsHeap s (ls ++ vacant k ∷ rs) xs
    → Separate ls
    → Joins s.lib ls k rs (coalesce (row_end (s.lib.heap + 8) ls) s)
coalesce-Joins s ls k rs xs h separate = elim (last_cases ls) [
  | inl e ↦ behind_used s ls k rs xs h e
  | inr (ks, j, e) ↦
      subst (λ t. Joins s.lib t k rs (coalesce (row_end (s.lib.heap + 8) t) s)) (sym e)
        (behind_free s ks j k rs xs (subst (λ t. IsHeap s (t ++ vacant k ∷ rs) xs) e h)
          (Separate-last ks j (subst Separate e separate)))
]

-- In a heap whose blocks lie one behind the other, with the list through its free ones: free at the
-- pointer to an allocated block leaves such a heap again, in which the block is free, one with the
-- free block before it and the free block behind it, except where one of these begins less than 58
-- bytes before the end of the heap; the other blocks, and the bytes of those in use, are as before.
-- The two blocks before it must not both be free.
pub free-Joins :
    (s : Mm) (ls : Row) (k : ℕ) (c : ℕ → ℕ) (rs : Row) (xs : List ℕ)
    → IsHeap s (ls ++ used k c ∷ rs) xs
    → Separate ls
    → Joins s.lib ls k rs (free (row_end (s.lib.heap + 8) ls + 8) s)
free-Joins s ls k c rs xs h separate =
    let (s4, (freed, same, heap)) = freed-IsHeap s ls k c rs xs h in
    let b = row_end (s.lib.heap + 8) ls in
    let done = coalesce-Joins s4 ls k rs (b ∷ xs) heap separate in
    subst (Joins s.lib ls k rs) (sym freed)
      (subst (λ l. Joins l ls k rs (coalesce (row_end (l.heap + 8) ls) s4)) same done)
