-- ===== src/Malloc/Allocate.antt =====
-- malloc: where in the heap the block comes from.
use cmpsc_473_operating_syst.Common.{
  ℕ, ◌+◌, ◌-◌, ◌^◌, ◌≤◌, ◌<◌, ◌≡◌, refl, ap, sym, ◌∙◌, ◌⊎◌, inl, inr, arith, true, false, some,
  List, [], ◌∷◌, ◌++◌, length, leb, ◌==◌, ◌||◌, Bool-cases,
}
use mathlib.Core.Path.{subst}
use mathlib.Core.List.{append_assoc, append-nil}
use cmpsc_473_operating_syst.Memlib.{mm_heapsize}
use cmpsc_473_operating_syst.Malloc.{
  Mm, load, size_of, search, take_whole, split, extend, block_size_for, malloc,
}
use cmpsc_473_operating_syst.Malloc.FreeList.{first_fit, search-first_fit, block_size_for-Fits}
use cmpsc_473_operating_syst.Malloc.Blocks.{
  vacant, used, Row, row_end, row_end-append, last_used, Sized,
}
use cmpsc_473_operating_syst.Malloc.Vacancies.{
  In, first_fit-Found, vacancies-split, length-vacancies,
}
use cmpsc_473_operating_syst.Malloc.Around.{size_of-flag}
use cmpsc_473_operating_syst.Malloc.Invariant.{IsHeap}
use cmpsc_473_operating_syst.Malloc.Vacant.{HasVacant, IsHeap-HasVacant}
use cmpsc_473_operating_syst.Malloc.Take.{take_whole-IsHeap}
use cmpsc_473_operating_syst.Malloc.Carve.{split-IsHeap}
use cmpsc_473_operating_syst.Malloc.Extend.{extend_cases}
use cmpsc_473_operating_syst.Malloc.Answers.{Granted, Refused, pointer_aligned, first_fit_null}

module _ (n : ℕ) (s : Mm) (bs : Row) (xs : List ℕ) (h : IsHeap s bs xs) where
  abbrev a : ℕ
  a = s.lib.heap + 8

  module _ (some_bytes : 0 < n) (small : n + 32 ≤ 2 ^ 63) where
    abbrev r : ℕ
    r = block_size_for n

    r-Sized : Sized r
    r-Sized = let (m, large, room, tight) = block_size_for-Fits n (omega arith) in (large, m)

    r_small : r < 2 ^ 63
    r_small = omega (arith, block_size_for-Fits n (omega arith))

    r_room : n + 8 ≤ r
    r_room = omega (arith, block_size_for-Fits n (omega arith))

    few : length xs ≤ mm_heapsize s.lib
    unfolding mm_heapsize
    few =
        let (low, align, end, most, limit) = h.fits in
        omega (arith, h.counted, length-vacancies s.mem true a bs h.runs.0)

    found : search r s ≡ some (first_fit r s xs)
    found = search-first_fit r s xs h.linked few

    malloc_extends : first_fit r s xs ≡ 0 → malloc n s ≡ some (extend r s)
    unfolding malloc
    malloc_extends null =
        let bytes : (n == 0) ≡ false = ground arith in
        let none_fits : search r s ≡ some 0 = found ∙ ap (λ t. some t) null in
        rw (bytes, none_fits, malloc) refl

    module _ (b k : ℕ) (at : first_fit r s xs ≡ b) (there : (b == 0) ≡ false)
        (holds : size_of (load s b) ≡ k) where
      malloc_takes : (leb (k - r) 32 || (k == r)) ≡ true → malloc n s ≡ some (take_whole b k s)
      unfolding malloc
      malloc_takes whole =
          let bytes : (n == 0) ≡ false = ground arith in
          let fit : search r s ≡ some b = found ∙ ap (λ t. some t) at in
          rw (bytes, fit, malloc, there, holds, whole) refl

      malloc_splits : (leb (k - r) 32 || (k == r)) ≡ false → malloc n s ≡ some (split b k r s)
      unfolding malloc
      malloc_splits part =
          let bytes : (n == 0) ≡ false = ground arith in
          let fit : search r s ≡ some b = found ∙ ap (λ t. some t) at in
          rw (bytes, fit, malloc, there, holds, part) refl

    -- The pointer to the result and the heap.
    abbrev Outcome : ℕ → Mm → Type 0
    Outcome p s' = Refused n s xs p s' ⊎ Granted n s bs p s'

    abbrev Result : Type 0
    Result = (p : ℕ) × (s' : Mm) × ((malloc n s ≡ some (p, s')) × Outcome p s')

    extends : first_fit r s xs ≡ 0 → Result
    extends null = elim (extend_cases s bs xs r r-Sized h r_small) [
      | inl (refused, past) ↦ (
        0,
        s,
        (
          malloc_extends null ∙ ap (λ t. some t) refused,
          inl (refl, refl, first_fit_null r s 0 s.free_block_pointer xs h.linked null, past),
        ),
      )
      | inr (t, c, (grown, same, heap)) ↦ (
        row_end a bs + 8,
        t,
        (
          malloc_extends null ∙ ap (λ t. some t) grown,
          inr (
            bs,
            r,
            c,
            [],
            xs,
            (
              heap,
              same,
              inr (inr (refl, refl)),
              refl,
              pointer_aligned s bs [] xs (subst (λ z. IsHeap s z xs) (sym (append-nil bs)) h),
              r_room,
            ),
          ),
        ),
      )
    ]

    -- At a free block of the row.
    module _ (ls : Row) (k : ℕ) (rs : Row) (row : bs ≡ ls ++ vacant k ∷ rs)
        (at : first_fit r s xs ≡ row_end (s.lib.heap + 8) ls) (enough : r ≤ k) where
      abbrev b : ℕ
      b = row_end a ls

      h' : IsHeap s (ls ++ vacant k ∷ rs) xs
      h' = subst (λ t. IsHeap s t xs) row h

      v : HasVacant s ls k rs xs b
      v = IsHeap-HasVacant s ls k rs xs h'

      holds : size_of (load s b) ≡ k
      holds = ap size_of v.header ∙ size_of-flag k (last_used true ls) v.sized.1

      there : (b == 0) ≡ false
      there = let low = v.before in ground arith

      takes : (leb (k - r) 32 || (k == r)) ≡ true → Result
      takes whole =
          let (s', c, ys, (taken, same, heap)) = take_whole-IsHeap s ls k rs xs h' in
          (
            b + 8,
            s',
            (
              malloc_takes b k at there holds whole ∙ ap (λ t. some t) taken,
              inr (
                ls,
                k,
                c,
                rs,
                ys,
                (
                  heap,
                  ap (λ t. t.heap) same,
                  inl row,
                  refl,
                  pointer_aligned s ls (vacant k ∷ rs) xs h',
                  omega (arith, r_room),
                ),
              ),
            ),
          )

      splits : (leb (k - r) 32 || (k == r)) ≡ false → Result
      splits part =
          let room : r + 32 < k = ground arith in
          let (s', c, (cut, same, heap)) = split-IsHeap s ls k r rs xs r-Sized room h' in
          let before : row_end a (ls ++ vacant (k - r) ∷ []) ≡ b + (k - r) =
            row_end-append a ls (vacant (k - r) ∷ []) in
          let joined : k - r + r ≡ k = omega arith in
          (
            b + (k - r) + 8,
            s',
            (
              malloc_splits b k at there holds part ∙ ap (λ t. some t) cut,
              inr (
                ls ++ vacant (k - r) ∷ [],
                r,
                c,
                rs,
                xs,
                (
                  subst (λ t. IsHeap s' t xs)
                      (sym (append_assoc ls (vacant (k - r) ∷ []) (used r c ∷ rs))) heap,
                  ap (λ t. t.heap) same,
                  inr (inl (ls, k - r, (refl, row ∙ ap (λ t. ls ++ vacant t ∷ rs) (sym joined)))),
                  ap (λ t. t + 8) (sym before),
                  (let z = v.sized.1 in
                      let y = r-Sized.1 in
                      omega (arith, pointer_aligned s ls (vacant k ∷ rs) xs h')),
                  r_room,
                ),
              ),
            ),
          )

      at_block : Result
      at_block = elim (Bool-cases (leb (k - r) 32 || (k == r))) [
        | inl whole ↦ takes whole
        | inr part ↦ splits part
      ]

    at_found : In (first_fit r s xs) xs → r ≤ size_of (load s (first_fit r s xs)) → Result
    at_found i enough =
        let (ls, k, rs, row, at) =
          vacancies-split a (first_fit r s xs) bs ((h.same (first_fit r s xs)).0 i) in
        let fits : r ≤ k = omega (arith, ap (λ t. size_of (load s t)) at, holds_at ls k rs row) in
        at_block ls k rs row (sym at) fits
      where
        holds_at :
            (ls : Row) (k : ℕ) (rs : Row)
            → bs ≡ ls ++ vacant k ∷ rs
            → size_of (load s (row_end (s.lib.heap + 8) ls)) ≡ k
        holds_at ls k rs row =
            let v = IsHeap-HasVacant s ls k rs xs (subst (λ t. IsHeap s t xs) row h) in
            ap size_of v.header ∙ size_of-flag k (last_used true ls) v.sized.1

-- In a heap whose blocks lie one behind the other, with the list through its free ones, a request for
-- some bytes, 2^63 - 32 at most, ends. Either no free block is large enough and the break cannot move
-- so far: then the answer is NULL and nothing changes. Or the answer is a multiple of 16 and points to
-- the bytes of an allocated block with room for the request, which was free, or the end of a free
-- block, or is new at the end of the heap; all other blocks, and the bytes of those in use, are as
-- before, in a heap that is in order again.
pub malloc-Granted :
    (n : ℕ) (s : Mm) (bs : Row) (xs : List ℕ)
    → IsHeap s bs xs
    → 0 < n
    → n + 32 ≤ 2 ^ 63
    → (p : ℕ) × (s' : Mm) × ((malloc n s ≡ some (p, s'))
        × (Refused n s xs p s' ⊎ Granted n s bs p s'))
malloc-Granted n s bs xs h some_bytes small = elim (first_fit-Found (block_size_for n) s xs) [
  | inl null ↦ extends n s bs xs h some_bytes small null
  | inr (i, enough) ↦ at_found n s bs xs h some_bytes small i enough
]
