-- ===== src/Malloc/Neighbours.antt =====
-- coalesce with the free block before, and with the one behind.
use cmpsc_473_operating_syst.Common.{
  ℕ, ◌+◌, ◌-◌, ◌%◌, ◌^◌, ◌≤◌, ◌<◌, ◌≡◌, refl, ap, sym, ◌∙◌, ◌⊎◌, inl, inr, arith, Bool, true, false,
  List, [], ◌∷◌, ◌++◌,
}
use mathlib.Core.Path.{subst}
use cmpsc_473_operating_syst.Memlib.{MemLib}
use cmpsc_473_operating_syst.Malloc.{Mm, load, size_of, has_1, remove_from_free_list}
use cmpsc_473_operating_syst.Malloc.Release.{mergeable, merge_prev, merge_next, coalesce}
use cmpsc_473_operating_syst.Malloc.Blocks.{
  vacant, Row, row_end, row_end-le, row_end-append, last_used, flag, Sized, Tiled,
}
use cmpsc_473_operating_syst.Malloc.Vacancies.{In}
use cmpsc_473_operating_syst.Malloc.Members.{NotIn}
use cmpsc_473_operating_syst.Malloc.Around.{size_of-flag}
use cmpsc_473_operating_syst.Malloc.Invariant.{IsHeap, Fits}
use cmpsc_473_operating_syst.Malloc.Region.{Region, Inside, Header, Region-remove}
use cmpsc_473_operating_syst.Malloc.Merges.{
  merge_prev_used, merge_prev_near, merge_next_near, coalesce-merges,
}
use cmpsc_473_operating_syst.Malloc.Coalesce.{
  mergeable_at, IsHeap-Region, NextKept, next_kept, finish,
}

-- The heap is in order, with one block of `size` at the end of `ls`.
abbrev pub Joined : MemLib → Row → ℕ → Row → Mm → Type 0
Joined lib ls size rs s' = (xs : List ℕ) × ((s'.lib ≡ lib) × IsHeap s' (ls ++ vacant size ∷ rs) xs)

pub size_of_word : (w k : ℕ) (u : Bool) → k % 16 ≡ 0 → w ≡ k + flag u → size_of w ≡ k
size_of_word w k u sized e = ap size_of e ∙ size_of-flag k u sized

pub even_word : (w k : ℕ) (u : Bool) → k % 16 ≡ 0 → w ≡ k + flag u → has_1 w ≡ false
even_word w k true sized e = rw e (ground arith)
even_word w k false sized e = rw e (ground arith)

pub near :
    (lib : MemLib) (s : Mm) (x : ℕ)
    → s.lib ≡ lib
    → lib.heap + 8 ≤ x
    → x + 57 < lib.mem_brk
    → mergeable s x ≡ true
near lib s x e low high = mergeable_at lib s x e low (omega arith) ∙ ground arith

-- Two free blocks side by side.
module _ (s : Mm) (ls : Row) (j k : ℕ) (rs : Row) (xs : List ℕ)
    (h : IsHeap s (ls ++ vacant j ∷ vacant k ∷ rs) xs) where
  abbrev a : ℕ
  a = s.lib.heap + 8

  abbrev q : ℕ
  q = row_end a ls

  abbrev joint : q + j + k ≡ q + (j + k)
  joint = omega arith

  region :
      Region s.lib ls rs (q + (j + k)) (q ∷ (q + j) ∷ []) xs s
      × Tiled s.mem (last_used true ls) q (vacant j ∷ vacant k ∷ [])
  region = IsHeap-Region s ls (vacant j ∷ vacant k ∷ []) rs xs (q + (j + k)) h joint refl

  Sized-j : Sized j
  Sized-j = region.1.0.0

  Sized-k : Sized k
  Sized-k = region.1.1.0.0

  word_j : load s q ≡ j + flag (last_used true ls)
  word_j = region.1.0.1

  footer_j : load s (q + j - 8) ≡ j
  footer_j = region.1.0.2

  word_k : load s (q + j) ≡ k + flag false
  word_k = region.1.1.0.1

  end_of_heap : row_end (q + (j + k)) rs + 8 ≡ s.lib.mem_brk
  end_of_heap =
      let (low, align, end, most, limit) = h.fits in
      ap (λ t. row_end t rs + 8) (sym joint)
      ∙ ap (λ t. t + 8) (sym (row_end-append a ls (vacant j ∷ vacant k ∷ rs)))
      ∙ end

  bounds : (q + (j + k) + 8 ≤ s.lib.mem_brk) × (s.lib.mem_brk < 2 ^ 64) × (a ≤ q)
  bounds =
      let (low, align, end, most, limit) = h.fits in
      omega (arith, end_of_heap, row_end-le (q + (j + k)) rs, row_end-le a ls)

  joined-Fits : Fits s.lib (ls ++ vacant (j + k) ∷ rs)
  joined-Fits =
      let (low, align, end, most, limit) = h.fits in
      (
        low,
        align,
        ap (λ t. t + 8) (row_end-append a ls (vacant (j + k) ∷ rs)) ∙ end_of_heap,
        most,
        limit,
      )

  joined-Sized : Sized (j + k)
  joined-Sized = let z = Sized-j in let y = Sized-k in (omega arith, omega arith)

  inside : Inside s.lib ls rs (q + (j + k)) (q ∷ (q + j) ∷ [])
  inside x (inl e) = let z = Sized-j in let y = Sized-k in (omega arith, omega arith)
  inside x (inr (inl e)) = let z = Sized-j in let y = Sized-k in (omega arith, omega arith)
  inside x (inr (inr i)) = elim i [ ]

  Header-q : Header s.lib ls rs (q + (j + k)) (q ∷ (q + j) ∷ []) q
  Header-q = (omega arith, let z = Sized-j in omega arith, other)
    where
      other : (y : ℕ) → In y (q ∷ (q + j) ∷ []) → (q ≡ y) ⊎ ((q + 32 ≤ y) ⊎ (y + 32 ≤ q))
      other y (inl e) = inl (sym e)
      other y (inr (inl e)) = let z = Sized-j in inr (inl (omega arith))
      other y (inr (inr i)) = elim i [ ]

  Header-k : Header s.lib ls rs (q + (j + k)) (q ∷ (q + j) ∷ []) (q + j)
  Header-k = (omega arith, let z = Sized-k in omega arith, other)
    where
      other :
          (y : ℕ) → In y (q ∷ (q + j) ∷ []) → (q + j ≡ y) ⊎ ((q + j + 32 ≤ y) ⊎ (y + 32 ≤ q + j))
      other y (inl e) = let z = Sized-j in inr (inr (omega arith))
      other y (inr (inl e)) = inl (sym e)
      other y (inr (inr i)) = elim i [ ]

  room : q + 32 ≤ q + (j + k)
  room = let z = Sized-j in omega arith

  -- The second block takes the first one in.
  pub Joined-prev :
      last_used true ls ≡ true
      → q + 57 < s.lib.mem_brk
      → NextKept s.lib.mem_brk (q + (j + k)) rs
      → Joined s.lib ls (j + k) rs (coalesce (q + j) s)
  Joined-prev before in_reach kept =
      let s1 = remove_from_free_list q s in
      let (fits, limit, above) = bounds in
      let (xs1, (r1, same1)) =
        Region-remove s.lib ls rs (q + (j + k)) s [] q ((q + j) ∷ []) xs region.0 inside room
          (alone Sized-j) in
      let back : q + j - j ≡ q = omega arith in
      let size1 : (k + size_of (load s1 q)) % 2 ^ 64 ≡ j + k =
        ap (λ t. (k + t) % 2 ^ 64)
          (size_of_word (load s1 q) j (last_used true ls) Sized-j.1 (same1 q Header-q ∙ word_j))
        ∙ omega arith in
      let prev : merge_prev (q + j) s ≡ (q, j + k, s1) =
        subst
          (λ t. merge_prev (q + j) s ≡ (
            t,
            (k + size_of (load (remove_from_free_list t s) t)) % 2 ^ 64,
            remove_from_free_list t s,
          ))
          back
          (merge_prev_near s (q + j) k Sized-k.1 j word_k footer_j Sized-j.1
            (ap (mergeable s) back ∙ near s.lib s q refl above in_reach))
        ∙ ap (λ t. (q, t, s1)) size1 in
      let next : merge_next (q + j + k) (j + k) s1 ≡ (j + k, s1) =
        ap (λ t. merge_next t (j + k) s1) joint
        ∙ next_kept s.lib s1 (q + (j + k)) (j + k) rs r1.shape.0.0 r1.shape.0.2 end_of_heap
            (let z = Sized-j in let y = Sized-k in omega arith) (omega arith) kept in
      finish s.lib ls rs (j + k) k (q + j) s s1 xs1 joined-Sized (let z = Sized-j in omega arith)
        (omega arith) (let z = Sized-k in omega arith) before joined-Fits r1
        (coalesce-merges (q + j) s s1 s1 k q (j + k) (j + k)
          (size_of_word (load s (q + j)) k false Sized-k.1 word_k) Sized-k.1 prev next)
    where
      alone : Sized j → NotIn q ((q + j) ∷ [])
      alone z (inl e) = absurd (omega arith)
      alone z (inr i) = i

  -- The first block takes the second one in.
  pub Joined-next :
      last_used true ls ≡ true
      → q + j + 57 < s.lib.mem_brk
      → Joined s.lib ls (j + k) rs (coalesce q s)
  Joined-next before in_reach =
      let s1 = remove_from_free_list (q + j) s in
      let (fits, limit, above) = bounds in
      let (xs1, (r1, same1)) =
        Region-remove s.lib ls rs (q + (j + k)) s (q ∷ []) (q + j) [] xs region.0 inside room
          (alone Sized-j) in
      let prev : merge_prev q s ≡ (q, j, s) =
        merge_prev_used s q j Sized-j.1 (word_j ∙ ap (λ t. j + flag t) before) in
      let size1 : (j + size_of (load s1 (q + j))) % 2 ^ 64 ≡ j + k =
        ap (λ t. (j + t) % 2 ^ 64)
          (size_of_word (load s1 (q + j)) k false Sized-k.1 (same1 (q + j) Header-k ∙ word_k))
        ∙ omega arith in
      let next : merge_next (q + j) j s ≡ (j + k, s1) =
        merge_next_near s (q + j) j (near s.lib s (q + j) refl (omega arith) in_reach)
          (even_word (load s (q + j)) k false Sized-k.1 word_k)
        ∙ ap (λ t. (t, s1)) size1 in
      finish s.lib ls rs (j + k) j q s s1 xs1 joined-Sized (let z = Sized-k in omega arith)
        (omega arith) (let z = Sized-k in omega arith) before joined-Fits r1
        (coalesce-merges q s s s1 j q j (j + k)
          (size_of_word (load s q) j (last_used true ls) Sized-j.1 word_j) Sized-j.1 prev next)
    where
      alone : Sized j → NotIn (q + j) (q ∷ [])
      alone z (inl e) = absurd (omega arith)
      alone z (inr i) = i
