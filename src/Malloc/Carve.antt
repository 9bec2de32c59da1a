-- ===== src/Malloc/Carve.antt =====
-- split cuts an allocated block off the end of a free one.
use cmpsc_473_operating_syst.Common.{
  ℕ, ◌+◌, ◌-◌, ◌*◌, ◌/◌, ◌%◌, ◌≤◌, ◌<◌, ◌≡◌, refl, ap, sym, ◌∙◌, inl, inr, arith, Bool, true, false,
  List, ◌∷◌, ◌++◌, length,
}
use mathlib.Core.Path.{subst}
use cmpsc_473_operating_syst.Malloc.{Mm, load, put, with_1, toggle_2, keep_2, split}
use cmpsc_473_operating_syst.Malloc.FreeList.{load-put, load-put_ne}
use cmpsc_473_operating_syst.Malloc.Blocks.{
  vacant, used, Row, row_end, row_end-le, row_end-append, last_used, vacancies, vacancies-append,
  flag, Sized,
}
use cmpsc_473_operating_syst.Malloc.Vacancies.{Same}
use cmpsc_473_operating_syst.Malloc.Around.{Runs, Runs-append, keep_2-flag, toggle_2_clear}
use cmpsc_473_operating_syst.Malloc.Invariant.{IsHeap, Shape, Shape-put, Shape-flag}
use cmpsc_473_operating_syst.Malloc.Vacant.{HasVacant, IsHeap-HasVacant}

-- The first three writes of `split`, where `e` bytes stay free.
abbrev carved : ℕ → ℕ → ℕ → Bool → Mm → Mm
carved b e r u s = put (put (put s b (e + flag u)) (b + e - 8) e) (b + e) (r + 1)

split-carved :
    (s : Mm) (b k r : ℕ) (u : Bool)
    → load s b ≡ k + flag u
    → k % 16 ≡ 0
    → r % 16 ≡ 0
    → r < k
    → let s3 = carved b (k - r) r u s in
      split b k r s ≡ (b + (k - r) + 8, put s3 (b + k) (toggle_2 (load s3 (b + k))))
unfolding split
split-carved s b k r u header sized sized' less =
    let kept : keep_2 (k + flag u) (k - r) ≡ k - r + flag u =
      keep_2-flag k (k - r) u (omega arith) (omega arith) in
    let one : with_1 r ≡ r + 1 = ground arith in
    let at : 8 * (k / 8) ≡ k = omega arith in
    let at' : 8 * ((k - r) / 8) ≡ k - r = omega arith in simp (header, kept, one, at, at')

module _ (s : Mm) (ls : Row) (k r : ℕ) (rs : Row) (xs : List ℕ) (sized : Sized r)
    (room : r + 32 < k) where
  abbrev a : ℕ
  a = s.lib.heap + 8

  abbrev b : ℕ
  b = row_end a ls

  abbrev u : Bool
  u = last_used true ls

  abbrev e : ℕ
  e = k - r

  carved-Shape : HasVacant s ls k rs xs b → Shape s.lib ls rs (b + k) xs false (carved b e r u s)
  carved-Shape h =
      let put_shape = Shape-put s.lib ls rs (b + k) xs h.beside false in
      put_shape _ (b + e) (r + 1) (omega arith, inr (omega arith, omega arith)) (omega arith)
        (put_shape _ (b + e - 8) e (omega arith, inr (omega arith, omega arith)) (omega arith)
          (put_shape s b (e + flag u) (omega arith, inl refl) (omega arith) h.shape))

  flag-le : (v : Bool) → flag v ≤ 2
  flag-le true = omega arith
  flag-le false = omega arith

  -- The words of the two blocks.
  carved_words :
      HasVacant s ls k rs xs b
      → let s3 = carved b e r u s in
        (load s3 b ≡ e + flag u) × (load s3 (b + e - 8) ≡ e) × (load s3 (b + e) ≡ r + 1)
  carved_words h =
      let s1 = put s b (e + flag u) in
      let s2 = put s1 (b + e - 8) e in
      let far = row_end-le (b + k) rs in
      let fits = h.behind in
      (
        load-put_ne s2 (b + e) (r + 1) b (inl (omega arith))
            ∙ load-put_ne s1 (b + e - 8) e b (inl (omega arith))
            ∙ load-put s b (e + flag u) (omega (arith, flag-le u)),
        load-put_ne s2 (b + e) (r + 1) (b + e - 8) (inl (omega arith))
            ∙ load-put s1 (b + e - 8) e (omega arith),
        load-put s2 (b + e) (r + 1) (omega arith),
      )

  split-row_end :
      (c : ℕ → ℕ) → row_end a (ls ++ vacant e ∷ used r c ∷ rs) ≡ row_end a (ls ++ vacant k ∷ rs)
  split-row_end c =
      let joined : b + e + r ≡ b + k = omega arith in
      row_end-append a ls (vacant e ∷ used r c ∷ rs)
      ∙ ap (λ t. row_end t rs) joined
      ∙ sym (row_end-append a ls (vacant k ∷ rs))

  split-vacancies :
      (c : ℕ → ℕ) → vacancies a (ls ++ vacant e ∷ used r c ∷ rs) ≡ vacancies a (ls ++ vacant k ∷ rs)
  split-vacancies c =
      let joined : b + e + r ≡ b + k = omega arith in
      vacancies-append a ls (vacant e ∷ used r c ∷ rs)
      ∙ ap (λ t. vacancies a ls ++ b ∷ vacancies t rs) joined
      ∙ sym (vacancies-append a ls (vacant k ∷ rs))

  split-Runs :
      (s' : Mm)
      → Sized e
      → Shape s.lib ls rs (b + k) xs true s'
      → load s' b ≡ e + flag u
      → load s' (b + e - 8) ≡ e
      → load s' (b + e) ≡ r + 1
      → Runs s'.mem true a (ls ++ vacant e ∷ used r (λ (i : ℕ). s'.mem (b + e + 8 + i)) ∷ rs)
  split-Runs s' sized_e ((same, left, right), linked) header footer header' =
      let joined : b + k ≡ b + e + r = omega arith in
      let (right', last) = subst (λ t. Runs s'.mem true t rs) joined right in
      Runs-append s'.mem true a ls (vacant e ∷ used r (λ (i : ℕ). s'.mem (b + e + 8 + i)) ∷ rs) left
        (
          ((sized_e, header, footer), ((sized, header' ∙ omega arith, λ i small. refl), right')),
          last,
        )

  pub split-IsHeap :
      IsHeap s (ls ++ vacant k ∷ rs) xs
      → (s' : Mm) × (c : ℕ → ℕ) × ((split b k r s ≡ (b + e + 8, s'))
          × (s'.lib ≡ s.lib)
          × IsHeap s' (ls ++ vacant e ∷ used r c ∷ rs) xs)
  split-IsHeap h =
      let v = IsHeap-HasVacant s ls k rs xs h in
      let s3 = carved b e r u s in
      let (word_b, word_foot, word_r) = carved_words v in
      let (w, (word, mark, within, shaped)) =
        Shape-flag s.lib ls rs (b + k) xs v.beside false s3 (omega arith)
          (let f = v.behind in omega arith) (carved-Shape v) in
      let word' : toggle_2 (load s3 (b + k)) ≡ w + 2 =
        ap toggle_2 (word ∙ (omega arith)) ∙ toggle_2_clear w mark in
      let s' = put s3 (b + k) (w + 2) in
      let c = λ (i : ℕ). s'.mem (b + e + 8 + i) in
      let shape' = shaped true in
      let (low, align, end, most, limit) = h.fits in
      let kept = λ (x v : ℕ) (below : x + 8 ≤ b + k) (q : load s3 x ≡ v).
        load-put_ne s3 (b + k) (w + 2) x (inl below) ∙ q in
      (
        s',
        c,
        (
          split-carved s b k r u v.header v.sized.1 sized.1 (omega arith)
              ∙ ap (λ t. (b + e + 8, put s3 (b + k) t)) word',
          shape'.0.0,
          record {
            fits = (low, align, ap (λ t. t + 8) (split-row_end c) ∙ end, most, limit);
            runs =
                split-Runs s' (let z = v.sized in (omega arith, omega arith)) shape'
                  (kept b (e + flag u) (omega arith) word_b)
                  (kept (b + e - 8) e (omega arith) word_foot)
                  (kept (b + e) (r + 1) (omega arith) word_r);
            linked = shape'.1;
            placed = h.placed;
            same = subst (Same xs) (sym (split-vacancies c)) h.same;
            counted = h.counted ∙ ap length (sym (split-vacancies c));
          },
        ),
      )
