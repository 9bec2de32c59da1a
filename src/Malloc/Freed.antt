-- ===== src/Malloc/Freed.antt =====
-- What free does before it calls coalesce: the block becomes a free one, at the front of the list.
use cmpsc_473_operating_syst.Common.{
  ℕ, ◌+◌, ◌-◌, ◌*◌, ◌/◌, ◌%◌, ◌^◌, ◌<◌, ◌≡◌, refl, ap, sym, ◌∙◌, inl, inr, arith, Bool, true, false,
  List, ◌∷◌, ◌++◌, length, ◌==◌,
}
use mathlib.Core.Path.{subst}
use cmpsc_473_operating_syst.Malloc.{Mm, load, put, size_of, without_1, without_2, add_to_free_list}
use cmpsc_473_operating_syst.Malloc.Release.{coalesce, free}
use cmpsc_473_operating_syst.Malloc.FreeList.{load-put, load-put_ne}
use cmpsc_473_operating_syst.Malloc.Blocks.{
  vacant, used, Row, row_end, row_end-le, row_end-append, last_used, vacancies, vacancies-append,
  flag, Sized,
}
use cmpsc_473_operating_syst.Malloc.Vacancies.{In, Same}
use cmpsc_473_operating_syst.Malloc.Around.{Runs-split, size_of-flag, without_2-flag}
use cmpsc_473_operating_syst.Malloc.Invariant.{IsHeap, Beside, Shape, Shape-put, Shape-flag}
use cmpsc_473_operating_syst.Malloc.Listed.{outer, outer-apart, IsHeap-listed}

-- The writes to the block, where `w` is the header behind it.
abbrev emptied : ℕ → ℕ → Bool → Mm → Mm
emptied b k u s = put (put s b (k + flag u)) (b + k - 8) k

free-emptied :
    (s : Mm) (b k : ℕ) (u : Bool)
    → load s b ≡ k + 1 + flag u
    → k % 16 ≡ 0
    → k + 3 < 2 ^ 64
    → let s2 = emptied b k u s in
      free (b + 8) s
      ≡ coalesce b (add_to_free_list b (put s2 (b + k) (without_2 (load s2 (b + k)))))
unfolding free
free-emptied s b k u header sized small =
    let some_block : (b + 8 == 0) ≡ false = ground arith in
    let block : b + 8 - 8 ≡ b = omega arith in
    let clear : without_1 (k + 1 + flag u) ≡ k + flag u = clear_1 u in
    let there : load (put s b (k + flag u)) b ≡ k + flag u =
      load-put s b (k + flag u) (flag_fits u) in
    let whole : size_of (k + flag u) ≡ k = size_of-flag k u sized in
    let at : 8 * (k / 8) ≡ k = omega arith in
    rw (some_block, block, header, clear, there, whole, at) refl
  where
    clear_1 : (v : Bool) → without_1 (k + 1 + flag v) ≡ k + flag v
    clear_1 true = omega arith
    clear_1 false = omega arith

    flag_fits : (v : Bool) → k + flag v < 2 ^ 64
    flag_fits true = omega arith
    flag_fits false = omega arith

module _ (s : Mm) (ls : Row) (k : ℕ) (c : ℕ → ℕ) (rs : Row) (xs : List ℕ)
    (h : IsHeap s (ls ++ used k c ∷ rs) xs) where
  abbrev a : ℕ
  a = s.lib.heap + 8

  abbrev b : ℕ
  b = row_end a ls

  abbrev u : Bool
  u = last_used true ls

  members : vacancies a (ls ++ used k c ∷ rs) ≡ outer s.lib ls rs (b + k)
  members = vacancies-append a ls (used k c ∷ rs)

  parts :
      Sized k
      × (load s b ≡ k + 1 + flag u)
      × Shape s.lib ls rs (b + k) xs true s
      × (row_end (b + k) rs + 8 < 2 ^ 64)
      × (8 < b)
  parts =
      let (low, align, end, most, limit) = h.fits in
      let (left, (((sized, header, bytes), right), last)) =
        Runs-split s.mem true a ls (used k c ∷ rs) h.runs in
      (
        sized,
        header,
        ((refl, left, (right, last)), h.linked),
        omega (arith, row_end-append a ls (used k c ∷ rs)),
        omega (arith, row_end-le a ls),
      )

  beside : Beside b (b + k) xs
  beside x i =
      elim (outer-apart s.lib ls rs (b + k) true s parts.2.0 x
        (subst (In x) members ((h.same x).0 i))) [ inl l ↦ inl l | inr r ↦ inr (inr r) ]

  emptied_words : (load (emptied b k u s) b ≡ k + flag u) × (load (emptied b k u s) (b + k - 8) ≡ k)
  emptied_words =
      let z = parts.0 in
      let s1 = put s b (k + flag u) in
      let far = row_end-le (b + k) rs in
      let f = parts.3 in
      (
        load-put_ne s1 (b + k - 8) k b (inl (omega arith)) ∙ load-put s b (k + flag u) (fits u),
        load-put s1 (b + k - 8) k (omega arith),
      )
    where
      fits : (v : Bool) → k + flag v < 2 ^ 64
      fits true = let f = parts.3 in omega (arith, row_end-le (b + k) rs, parts.4)
      fits false = let f = parts.3 in omega (arith, row_end-le (b + k) rs)

  -- All but the list: the state before add_to_free_list.
  unlisted :
      (s3 : Mm) × ((free (b + 8) s ≡ coalesce b (add_to_free_list b s3))
        × (load s3 b ≡ k + flag u)
        × (load s3 (b + k - 8) ≡ k)
        × Shape s.lib ls rs (b + k) xs false s3)
  unlisted =
      let (sized, header, shape, behind, before) = parts in
      let s2 = emptied b k u s in
      let far = row_end-le (b + k) rs in
      let shape_put = Shape-put s.lib ls rs (b + k) xs beside true in
      let shape2 =
        shape_put (put s b (k + flag u)) (b + k - 8) k
          (let z = sized in (omega arith, inr (omega arith, omega arith)))
          (let z = sized in omega arith)
          (shape_put s b (k + flag u) (let z = sized in (omega arith, inl refl))
            (let z = sized in omega arith) shape) in
      let (w, (word, mark, within, shaped)) =
        Shape-flag s.lib ls rs (b + k) xs beside true s2 (let z = sized in omega arith)
          (omega arith) shape2 in
      let word' : without_2 (load s2 (b + k)) ≡ w + 0 =
        ap without_2 word ∙ without_2-flag w true mark ∙ (omega arith) in
      let (here, foot) = emptied_words in
      (
        put s2 (b + k) (w + 0),
        (
          free-emptied s b k u header sized.1 (omega arith)
              ∙ ap (λ t. coalesce b (add_to_free_list b (put s2 (b + k) t))) word',
          load-put_ne s2 (b + k) (w + 0) b (inl (let z = sized in omega arith)) ∙ here,
          load-put_ne s2 (b + k) (w + 0) (b + k - 8) (inl (let z = sized in omega arith)) ∙ foot,
          shaped false,
        ),
      )

  row_end-vacant : row_end a (ls ++ vacant k ∷ rs) ≡ row_end a (ls ++ used k c ∷ rs)
  row_end-vacant = row_end-append a ls (vacant k ∷ rs) ∙ sym (row_end-append a ls (used k c ∷ rs))

  pub freed-IsHeap :
      (s4 : Mm) × ((free (b + 8) s ≡ coalesce b s4)
        × (s4.lib ≡ s.lib)
        × IsHeap s4 (ls ++ vacant k ∷ rs) (b ∷ xs))
  freed-IsHeap =
      let (sized, header, shape, behind, before) = parts in
      let (low, align, end, most, limit) = h.fits in
      let (s3, (freed, here, foot, shape3)) = unlisted in
      let (same_lib, heap) =
        IsHeap-listed s.lib ls k rs xs s3 sized shape3 (subst (Same xs) members h.same) h.placed
          (h.counted ∙ ap length members)
          (low, align, ap (λ t. t + 8) row_end-vacant ∙ end, most, limit) here foot in
      (add_to_free_list b s3, (freed, same_lib, heap))
