-- ===== src/Malloc/Both.antt =====
-- coalesce with the free blocks on both sides.
use cmpsc_473_operating_syst.Common.{
  ℕ, ◌+◌, ◌-◌, ◌%◌, ◌^◌, ◌≤◌, ◌<◌, ◌≡◌, refl, ap, sym, ◌∙◌, inl, inr, arith, true, false, List, [],
  ◌∷◌, ◌++◌,
}
use mathlib.Core.Path.{subst}
use cmpsc_473_operating_syst.Malloc.{Mm, load, size_of, remove_from_free_list}
use cmpsc_473_operating_syst.Malloc.Release.{mergeable, merge_prev, merge_next, coalesce}
use cmpsc_473_operating_syst.Malloc.Blocks.{
  vacant, Row, row_end, row_end-le, row_end-append, last_used, flag, Sized, Tiled,
}
use cmpsc_473_operating_syst.Malloc.Vacancies.{In}
use cmpsc_473_operating_syst.Malloc.Members.{NotIn}
use cmpsc_473_operating_syst.Malloc.Invariant.{IsHeap, Fits}
use cmpsc_473_operating_syst.Malloc.Region.{Region, Inside, Header, Region-remove}
use cmpsc_473_operating_syst.Malloc.Merges.{merge_prev_near, merge_next_near, coalesce-merges}
use cmpsc_473_operating_syst.Malloc.Coalesce.{IsHeap-Region, finish}
use cmpsc_473_operating_syst.Malloc.Neighbours.{Joined, size_of_word, even_word, near}

module _ (s : Mm) (ls : Row) (i j k : ℕ) (rs : Row) (xs : List ℕ)
    (h : IsHeap s (ls ++ vacant i ∷ vacant j ∷ vacant k ∷ rs) xs) where
  abbrev a : ℕ
  a = s.lib.heap + 8

  abbrev q : ℕ
  q = row_end a ls

  abbrev b : ℕ
  b = q + i

  abbrev n : ℕ
  n = q + i + j

  abbrev hi : ℕ
  hi = q + (i + j + k)

  abbrev three : List ℕ
  three = q ∷ b ∷ n ∷ []

  abbrev joint : n + k ≡ hi
  joint = omega arith

  region :
      Region s.lib ls rs hi three xs s
      × Tiled s.mem (last_used true ls) q (vacant i ∷ vacant j ∷ vacant k ∷ [])
  region = IsHeap-Region s ls (vacant i ∷ vacant j ∷ vacant k ∷ []) rs xs hi h joint refl

  Sized-i : Sized i
  Sized-i = region.1.0.0

  Sized-j : Sized j
  Sized-j = region.1.1.0.0

  Sized-k : Sized k
  Sized-k = region.1.1.1.0.0

  end_of_heap : row_end hi rs + 8 ≡ s.lib.mem_brk
  end_of_heap =
      let (low, align, end, most, limit) = h.fits in
      ap (λ t. row_end t rs + 8) (sym joint)
      ∙ ap (λ t. t + 8) (sym (row_end-append a ls (vacant i ∷ vacant j ∷ vacant k ∷ rs)))
      ∙ end

  bounds : (hi + 8 ≤ s.lib.mem_brk) × (s.lib.mem_brk < 2 ^ 64) × (a ≤ q)
  bounds =
      let (low, align, end, most, limit) = h.fits in
      omega (arith, end_of_heap, row_end-le hi rs, row_end-le a ls)

  joined-Fits : Fits s.lib (ls ++ vacant (i + j + k) ∷ rs)
  joined-Fits =
      let (low, align, end, most, limit) = h.fits in
      (
        low,
        align,
        ap (λ t. t + 8) (row_end-append a ls (vacant (i + j + k) ∷ rs)) ∙ end_of_heap,
        most,
        limit,
      )

  joined-Sized : Sized (i + j + k)
  joined-Sized = let z = Sized-i in let y = Sized-j in let x = Sized-k in (omega arith, omega arith)

  inside : Inside s.lib ls rs hi three
  inside x which = let z = Sized-i in let y = Sized-j in let w = Sized-k in ground arith

  header : (w : ℕ) → In w three → Header s.lib ls rs hi three w
  header w which =
      let z = Sized-i in
      let y = Sized-j in let x = Sized-k in (ground arith, ground arith, λ v other. ground arith)

  room : q + 32 ≤ hi
  room = let z = Sized-i in omega arith

  header' : (w : ℕ) → In w (b ∷ n ∷ []) → Header s.lib ls rs hi (b ∷ n ∷ []) w
  header' w which =
      let z = Sized-i in
      let y = Sized-j in let x = Sized-k in (ground arith, ground arith, λ v other. ground arith)

  alone_q : NotIn q (b ∷ n ∷ [])
  alone_q which = let z = Sized-i in absurd (ground arith)

  alone_n : NotIn n (b ∷ [])
  alone_n which = let z = Sized-j in absurd (ground arith)

  -- The block in the middle takes both in.
  pub Joined-both :
      last_used true ls ≡ true
      → q + 57 < s.lib.mem_brk
      → n + 57 < s.lib.mem_brk
      → Joined s.lib ls (i + j + k) rs (coalesce b s)
  Joined-both before prev_near next_near =
      let (fits, limit, above) = bounds in
      let z = Sized-i in
      let y = Sized-j in
      let x = Sized-k in
      let word_i : load s q ≡ i + flag (last_used true ls) = region.1.0.1 in
      let footer_i : load s (b - 8) ≡ i = region.1.0.2 in
      let word_j : load s b ≡ j + flag false = region.1.1.0.1 in
      let word_k : load s n ≡ k + flag false = region.1.1.1.0.1 in
      let s1 = remove_from_free_list q s in
      let s2 = remove_from_free_list n s1 in
      let (xs1, (r1, same1)) =
        Region-remove s.lib ls rs hi s [] q (b ∷ n ∷ []) xs region.0 inside room alone_q in
      let (xs2, (r2, same2)) =
        Region-remove s.lib ls rs hi s1 (b ∷ []) n [] xs1 r1 (λ w m. inside w (inr m)) room
          alone_n in
      let back : q + i - i ≡ q = omega arith in
      let size1 : (j + size_of (load s1 q)) % 2 ^ 64 ≡ i + j =
        ap (λ t. (j + t) % 2 ^ 64)
          (size_of_word (load s1 q) i (last_used true ls) z.1
            (same1 q (header q (inl refl)) ∙ word_i))
        ∙ omega arith in
      let prev : merge_prev b s ≡ (q, i + j, s1) =
        subst
          (λ t. merge_prev b s ≡ (
            t,
            (j + size_of (load (remove_from_free_list t s) t)) % 2 ^ 64,
            remove_from_free_list t s,
          ))
          back
          (merge_prev_near s b j y.1 i word_j footer_i z.1
            (ap (mergeable s) back ∙ near s.lib s q refl above prev_near))
        ∙ ap (λ t. (q, t, s1)) size1 in
      let word_k1 : load s1 n ≡ k + flag false =
        same1 n (header n (inr (inr (inl refl)))) ∙ word_k in
      let size2 : (i + j + size_of (load s2 n)) % 2 ^ 64 ≡ i + j + k =
        ap (λ t. (i + j + t) % 2 ^ 64)
          (size_of_word (load s2 n) k false x.1 (same2 n (header' n (inr (inl refl))) ∙ word_k1))
        ∙ omega arith in
      let next : merge_next n (i + j) s1 ≡ (i + j + k, s2) =
        merge_next_near s1 n (i + j) (near s.lib s1 n r1.shape.0.0 (omega arith) next_near)
          (even_word (load s1 n) k false x.1 word_k1)
        ∙ ap (λ t. (t, s2)) size2 in
      finish s.lib ls rs (i + j + k) j b s s2 xs2 joined-Sized (omega arith) (omega arith)
        (omega arith) before joined-Fits r2
        (coalesce-merges b s s1 s2 j q (i + j) (i + j + k)
          (size_of_word (load s b) j false y.1 word_j) y.1 prev next)
