-- ===== src/Malloc/Merges.antt =====
-- What merge_prev and merge_next do at the blocks before and behind a free one.
use cmpsc_473_operating_syst.Common.{
  ℕ, ◌+◌, ◌-◌, ◌*◌, ◌/◌, ◌%◌, ◌^◌, ◌≤◌, ◌≡◌, refl, ap, ◌∙◌, inl, inr, arith, true, false, ltb, ◌==◌,
  if◌then◌else◌, Bool-cases,
}
use cmpsc_473_operating_syst.Memlib.{mm_heap_lo, mm_heap_hi}
use cmpsc_473_operating_syst.Malloc.{Mm, load, size_of, has_1, has_2, remove_from_free_list}
use cmpsc_473_operating_syst.Malloc.Release.{mergeable, merge_prev, merge_next, coalesce}
use cmpsc_473_operating_syst.Malloc.Blocks.{flag}
use cmpsc_473_operating_syst.Malloc.Around.{size_of-flag, has_2-flag}
use cmpsc_473_operating_syst.Malloc.Region.{merged}

-- A header is merged if it is not within 57 bytes of the end of the heap.
pub mergeable_lem :
    (s : Mm) (x : ℕ)
    → s.lib.heap + 8 ≤ x
    → 57 ≤ s.lib.mem_brk
    → mergeable s x ≡ ltb (x + 57) s.lib.mem_brk
unfolding mm_heap_lo mm_heap_hi
mergeable_lem s x low high = ground arith

module _ (s : Mm) (b k : ℕ) (sized : k % 16 ≡ 0) where
  pub merge_prev_used : load s b ≡ k + flag true → merge_prev b s ≡ (b, k, s)
  unfolding merge_prev
  merge_prev_used header =
      let mark : has_2 (k + flag true) ≡ true = has_2-flag k true (omega arith) in
      let whole : size_of (k + flag true) ≡ k = size_of-flag k true sized in
      rw (header, mark, whole) refl

  module _ (j : ℕ) (header : load s b ≡ k + flag false) (footer : load s (b - 8) ≡ j)
      (sized' : j % 16 ≡ 0) where
    pub merge_prev_far : mergeable s (b - j) ≡ false → merge_prev b s ≡ (b, k, s)
    unfolding merge_prev mm_heap_lo mm_heap_hi
    merge_prev_far far =
        let mark : has_2 (k + flag false) ≡ false = has_2-flag k false (omega arith) in
        let whole : size_of (k + flag false) ≡ k = size_of-flag k false sized in
        let whole' : size_of j ≡ j = omega arith in
        let at : 8 * (j / 8) ≡ j = omega arith in
        rw (header, footer, whole', at, mark, far, whole) refl

    pub merge_prev_near :
        mergeable s (b - j) ≡ true
        → let s' = remove_from_free_list (b - j) s in
          merge_prev b s ≡ (b - j, (k + size_of (load s' (b - j))) % 2 ^ 64, s')
    unfolding merge_prev mm_heap_lo mm_heap_hi
    merge_prev_near near =
        let mark : has_2 (k + flag false) ≡ false = has_2-flag k false (omega arith) in
        let whole : size_of (k + flag false) ≡ k = size_of-flag k false sized in
        let whole' : size_of j ≡ j = omega arith in
        let at : 8 * (j / 8) ≡ j = omega arith in
        rw (header, footer, whole', at, mark, near, whole) refl

pub merge_next_far : (s : Mm) (n m : ℕ) → mergeable s n ≡ false → merge_next n m s ≡ (m, s)
unfolding merge_next mm_heap_lo mm_heap_hi
merge_next_far s n m far = rw far refl

pub merge_next_used : (s : Mm) (n m : ℕ) → has_1 (load s n) ≡ true → merge_next n m s ≡ (m, s)
unfolding merge_next mm_heap_lo mm_heap_hi
merge_next_used s n m one = elim (Bool-cases (mergeable s n)) [
  | inl near ↦ rw (near, one) refl
  | inr far ↦ rw far refl
]

pub merge_next_near :
    (s : Mm) (n m : ℕ)
    → mergeable s n ≡ true
    → has_1 (load s n) ≡ false
    → let s' = remove_from_free_list n s in
      merge_next n m s ≡ ((m + size_of (load s' n)) % 2 ^ 64, s')
unfolding merge_next mm_heap_lo mm_heap_hi
merge_next_near s n m near zero_bit = rw (near, zero_bit) refl

-- What follows the two merges in `coalesce`.
abbrev coalesce_from : ℕ → ℕ → ℕ → ℕ × Mm → Mm
coalesce_from block current_size merged_block (merged_size, s2) =
    if merged_size == current_size
    then s2
    else merged merged_block merged_size (remove_from_free_list block s2)

abbrev coalesce_with : ℕ → ℕ → ℕ × ℕ × Mm → Mm
coalesce_with block current_size (merged_block, size1, s1) =
    coalesce_from block current_size merged_block
      (merge_next (block + 8 * (current_size / 8)) size1 s1)

coalesce-coalesce_with :
    (b : ℕ) (s : Mm) → coalesce b s ≡ coalesce_with b (size_of (load s b)) (merge_prev b s)
unfolding coalesce
coalesce-coalesce_with b s = refl

pub coalesce-merges :
    (b : ℕ) (s s1 s2 : Mm) (k merged_block size1 merged_size : ℕ)
    → size_of (load s b) ≡ k
    → k % 16 ≡ 0
    → merge_prev b s ≡ (merged_block, size1, s1)
    → merge_next (b + k) size1 s1 ≡ (merged_size, s2)
    → coalesce b s ≡ (
        if merged_size == k
        then s2
        else merged merged_block merged_size (remove_from_free_list b s2))
coalesce-merges b s s1 s2 k merged_block size1 merged_size whole sized prev next =
    let at : 8 * (k / 8) ≡ k = omega arith in
    coalesce-coalesce_with b s
    ∙ ap (λ t. coalesce_with b t (merge_prev b s)) whole
    ∙ ap (coalesce_with b k) prev
    ∙ ap (λ t. coalesce_from b k merged_block (merge_next (b + t) size1 s1)) at
    ∙ ap (coalesce_from b k merged_block) next
