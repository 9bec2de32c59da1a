-- ===== src/Sampler/Kept.antt =====
-- add_sample keeps the best samples.
use cmpsc_473_operating_syst.Common.{
  ℕ, zero, suc, ◌+◌, ◌-◌, ◌≤◌, ◌<◌, ◌≡◌, refl, ap, sym, ◌∙◌, inl, inr, arith, List, [], ◌∷◌, ◌++◌,
  ltb, if◌then◌else◌, Bool-cases, length, length-append, set, snoc_cases,
}
use mathlib.Core.Path.{subst}
use mathlib.Core.List.{append-nil}
use cmpsc_473_operating_syst.Sampler.{Sampler, Limits, zeros, at_index, sift, add_sample}
use cmpsc_473_operating_syst.Sampler.Best.{
  insert, take, sorted, AllLe, IsSorted, sorted-IsSorted, take-IsSorted, IsSorted-snoc,
  insert-AllLe, insert-snoc, length-insert, take-insert,
}
use cmpsc_473_operating_syst.Sampler.Sift.{sift-insert, at_index-append, set-append}

-- After the samples `vs`, the latest one first: the least `kbest` of them in order, and zeros where
-- there are fewer.
abbrev pub Holds : Limits → List ℕ → Sampler → Type 0
Holds l vs s =
    (s.samplecount ≡ length vs)
    × (s.values ≡ take l.kbest (sorted vs) ++ zeros (l.kbest - length vs))

length-sorted : (vs : List ℕ) → length (sorted vs) ≡ length vs
length-sorted [] = refl
length-sorted (v ∷ vs) = length-insert v (sorted vs) ∙ ap suc (length-sorted vs)

take_all : (n : ℕ) (xs : List ℕ) → length xs ≤ n → take n xs ≡ xs
take_all zero [] h = refl
take_all zero (x ∷ xs) h = absurd (omega arith)
take_all (suc n) [] h = refl
take_all (suc n) (x ∷ xs) h = ap (λ t. x ∷ t) (take_all n xs (omega arith))

length-take : (n : ℕ) (xs : List ℕ) → n ≤ length xs → length (take n xs) ≡ n
length-take zero xs h = refl
length-take (suc n) [] h = absurd (omega arith)
length-take (suc n) (x ∷ xs) h = ap suc (length-take n xs (omega arith))

take-append : (n : ℕ) (xs ys : List ℕ) → length xs ≡ n → take n (xs ++ ys) ≡ xs
take-append zero [] ys e = refl
take-append zero (x ∷ xs) ys e = absurd (omega arith)
take-append (suc n) [] ys e = absurd (omega arith)
take-append (suc n) (x ∷ xs) ys e = ap (λ t. x ∷ t) (take-append n xs ys (omega arith))

zeros-pos : (n : ℕ) → 0 < n → zeros n ≡ 0 ∷ zeros (n - 1)
zeros-pos zero h = absurd (omega arith)
zeros-pos (suc n) h = ap (λ (t : ℕ). 0 ∷ zeros t) (omega arith)

-- While there is room.
values_room :
    (k v : ℕ) (vs : List ℕ)
    → length vs < k
    → sift (length vs) (set (take k (sorted vs) ++ zeros (k - length vs)) (length vs) v)
      ≡ take k (sorted (v ∷ vs)) ++ zeros (k - suc (length vs))
values_room k v vs room =
    let n = length vs in
    let all = sorted vs in
    let long = length-sorted vs in
    let left : k - n - 1 ≡ k - suc n = omega arith in
    let row : take k all ++ zeros (k - n) ≡ all ++ 0 ∷ zeros (k - suc n) =
      ap (λ t. t ++ zeros (k - n)) (take_all k all (omega (arith, long)))
      ∙ ap (λ t. all ++ t) (zeros-pos (k - n) (omega arith) ∙ ap (λ (t : ℕ). 0 ∷ zeros t) left) in
    ap (λ t. sift n (set t n v)) row
    ∙ ap (sift n) (set-append all 0 v (zeros (k - suc n)) n long)
    ∙ sift-insert n all v (zeros (k - suc n)) long (sorted-IsSorted vs)
    ∙ ap (λ t. t ++ zeros (k - suc n))
        (sym (take_all k (insert v all) (omega (arith, long, length-insert v all))))

-- When there is none, for the best `ws ++ y`.
module _ (k v : ℕ) (vs ws : List ℕ) (y : ℕ) (best : take k (sorted vs) ≡ ws ++ y ∷ [])
    (full : length ws + 1 ≡ k) where
  last_best : at_index (take k (sorted vs)) (k - 1) ≡ y
  last_best = ap (λ t. at_index t (k - 1)) best ∙ at_index-append ws y [] (k - 1) (omega arith)

  best_next : take k (sorted (v ∷ vs)) ≡ take k (insert v (ws ++ y ∷ []))
  best_next = sym (take-insert k v (sorted vs)) ∙ ap (λ t. take k (insert v t)) best

  values_less : v < y → sift (k - 1) (set (take k (sorted vs)) (k - 1) v) ≡ take k (sorted (v ∷ vs))
  values_less less =
      let order : IsSorted (ws ++ y ∷ []) =
        subst IsSorted best (take-IsSorted k (sorted vs) (sorted-IsSorted vs)) in
      ap (λ t. sift (k - 1) (set t (k - 1) v)) best
      ∙ ap (sift (k - 1)) (set-append ws y v [] (k - 1) (omega arith))
      ∙ sift-insert (k - 1) ws v [] (omega arith) (IsSorted-snoc y ws order).1
      ∙ append-nil (insert v ws)
      ∙ sym (take-append k (insert v ws) (y ∷ []) (omega (arith, length-insert v ws)))
      ∙ ap (take k) (sym (insert-snoc v y ws less))
      ∙ sym best_next

  values_more : y ≤ v → take k (sorted vs) ≡ take k (sorted (v ∷ vs))
  values_more more =
      let order : IsSorted (ws ++ y ∷ []) =
        subst IsSorted best (take-IsSorted k (sorted vs) (sorted-IsSorted vs)) in
      let below : AllLe (ws ++ y ∷ []) v = AllLe-snoc ws (IsSorted-snoc y ws order).0 in
      best
      ∙ sym (take-append k (ws ++ y ∷ []) (v ∷ []) (omega (arith, length-append ws (y ∷ []))))
      ∙ ap (take k) (sym (insert-AllLe v (ws ++ y ∷ []) below))
      ∙ sym best_next
    where
      AllLe-snoc : (ws : List ℕ) → AllLe ws y → AllLe (ws ++ y ∷ []) v
      AllLe-snoc [] b = (more, tt)
      AllLe-snoc (w ∷ ws) (b, bs) = (omega arith, AllLe-snoc ws bs)

values_full :
    (k v : ℕ) (vs : List ℕ)
    → 0 < k
    → k ≤ length vs
    → (if ltb v (at_index (take k (sorted vs)) (k - 1))
        then sift (k - 1) (set (take k (sorted vs)) (k - 1) v)
        else take k (sorted vs))
      ≡ take k (sorted (v ∷ vs))
values_full k v vs some_best full =
    let long : length (take k (sorted vs)) ≡ k =
      length-take k (sorted vs) (omega (arith, length-sorted vs)) in
    elim (snoc_cases (take k (sorted vs))) [
      | inl e ↦ absurd (omega (arith, ap length e, long))
      | inr (ws, y, e) ↦
          let size : length ws + 1 ≡ k =
            omega (arith, ap length e, long, length-append ws (y ∷ [])) in
          rw (last_best k v vs ws y e size) (elim (Bool-cases (ltb v y)) [
            | inl less ↦ rw less (values_less k v vs ws y e size (ground arith))
            | inr more ↦ rw more (values_more k v vs ws y e size (ground arith))
          ])
    ]

-- If the array has room for one sample at least, and holds the least `kbest` of the samples so far in
-- order, add_sample leaves it with the least `kbest` of these and the new one, in order, and counts it.
pub add_sample-Holds :
    (l : Limits) (v : ℕ) (vs : List ℕ) (s : Sampler)
    → 0 < l.kbest
    → Holds l vs s
    → Holds l (v ∷ vs) (add_sample l v s)
unfolding add_sample
add_sample-Holds l v vs s some_best (count, values) =
    let k = l.kbest in
    elim (Bool-cases (ltb (length vs) k)) [
      | inl room ↦ (omega arith, rw (count, values, room) (values_room k v vs (ground arith)))
      | inr full ↦
          let none_left : zeros (k - length vs) ≡ [] =
            ap zeros (let e : k - length vs ≡ 0 = ground arith in e) in
          let none_next : zeros (k - suc (length vs)) ≡ [] =
            ap zeros (let e : k - suc (length vs) ≡ 0 = ground arith in e) in
          (
            omega arith,
            rw (count, values, full, none_left, none_next, append-nil (take k (sorted vs)))
                (values_full k v vs some_best (ground arith)
                  ∙ sym (append-nil (take k (sorted (v ∷ vs))))),
          )
    ]
