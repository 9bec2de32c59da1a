-- ===== src/Sampler/Sift.antt =====
-- The insertion sort of the array.
use cmpsc_473_operating_syst.Common.{
  ℕ, zero, suc, ◌≤◌, ◌≡◌, refl, ap, sym, ◌∙◌, inl, inr, arith, List, [], ◌∷◌, ◌++◌, ltb, Bool-cases,
  length, length-append, set, snoc_cases,
}
use mathlib.Core.Path.{subst}
use mathlib.Core.List.{append_assoc}
use cmpsc_473_operating_syst.Sampler.{at_index, sift}
use cmpsc_473_operating_syst.Sampler.Best.{
  insert, AllLe, IsSorted, IsSorted-snoc, insert-AllLe, insert-snoc,
}

pub at_index-append :
    (ys : List ℕ) (v : ℕ) (zs : List ℕ) (n : ℕ) → length ys ≡ n → at_index (ys ++ v ∷ zs) n ≡ v
at_index-append [] v zs zero e = refl
at_index-append [] v zs (suc n) e = absurd (omega arith)
at_index-append (y ∷ ys) v zs zero e = absurd (omega arith)
at_index-append (y ∷ ys) v zs (suc n) e = at_index-append ys v zs n (omega arith)

pub set-append :
    (ys : List ℕ) (v w : ℕ) (zs : List ℕ) (n : ℕ)
    → length ys ≡ n
    → set (ys ++ v ∷ zs) n w ≡ ys ++ w ∷ zs
set-append [] v w zs zero e = refl
set-append [] v w zs (suc n) e = absurd (omega arith)
set-append (y ∷ ys) v w zs zero e = absurd (omega arith)
set-append (y ∷ ys) v w zs (suc n) e = ap (λ t. y ∷ t) (set-append ys v w zs n (omega arith))

-- A value behind a part in order moves to its place in it.
pub sift-insert :
    (n : ℕ) (ys : List ℕ) (v : ℕ) (zs : List ℕ)
    → length ys ≡ n
    → IsSorted ys
    → sift n (ys ++ v ∷ zs) ≡ insert v ys ++ zs
unfolding sift
sift-insert zero [] v zs e h = refl
sift-insert zero (y ∷ ys) v zs e h = absurd (omega arith)
sift-insert (suc n) ys v zs e h = elim (snoc_cases ys) [
  | inl none_left ↦ absurd (omega (arith, ap length none_left))
  | inr (ws, y, whole) ↦
      let long : length ws ≡ n = omega (arith, ap length whole, length-append ws (y ∷ [])) in
      let (below, rest) = IsSorted-snoc y ws (subst IsSorted whole h) in
      let row : ys ++ v ∷ zs ≡ ws ++ y ∷ v ∷ zs =
        ap (λ t. t ++ v ∷ zs) whole ∙ append_assoc ws (y ∷ []) (v ∷ zs) in
      let left : at_index (ws ++ y ∷ v ∷ zs) n ≡ y = at_index-append ws y (v ∷ zs) n long in
      let here : at_index (ws ++ y ∷ v ∷ zs) (suc n) ≡ v =
        ap (λ t. at_index t (suc n)) (sym (append_assoc ws (y ∷ []) (v ∷ zs)))
        ∙ at_index-append (ws ++ y ∷ []) v zs (suc n) (omega (arith, length-append ws (y ∷ []))) in
      let swapped : set (set (ws ++ y ∷ v ∷ zs) n v) (suc n) y ≡ ws ++ v ∷ y ∷ zs =
        ap (λ t. set t (suc n) y)
          (set-append ws y v (v ∷ zs) n long ∙ sym (append_assoc ws (v ∷ []) (v ∷ zs)))
        ∙ set-append (ws ++ v ∷ []) v y zs (suc n) (omega (arith, length-append ws (v ∷ [])))
        ∙ append_assoc ws (v ∷ []) (y ∷ zs) in
      rw (row, left, here, swapped)
        (elim (Bool-cases (ltb v y)) [
          | inl less ↦ rw less (
              sift-insert n ws v (y ∷ zs) long rest
              ∙ sym (append_assoc (insert v ws) (y ∷ []) zs)
              ∙ ap (λ t. t ++ zs) (sym (ap (insert v) whole ∙ insert-snoc v y ws (ground arith))))
          | inr more ↦
              let last : AllLe (ws ++ y ∷ []) v = AllLe-snoc ws y v (ground arith) below in
              rw more (
                sym (append_assoc ws (y ∷ []) (v ∷ zs))
                ∙ sym (append_assoc (ws ++ y ∷ []) (v ∷ []) zs)
                ∙ ap (λ t. t ++ zs)
                    (sym (ap (insert v) whole ∙ insert-AllLe v (ws ++ y ∷ []) last)))
        ])
]
  where
    AllLe-snoc : (ws : List ℕ) (y v : ℕ) → y ≤ v → AllLe ws y → AllLe (ws ++ y ∷ []) v
    AllLe-snoc [] y v le b = (le, tt)
    AllLe-snoc (w ∷ ws) y v le (b, bs) = (omega arith, AllLe-snoc ws y v le bs)
