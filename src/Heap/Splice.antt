-- ===== src/Heap/Splice.antt =====
-- The guarded writes `if (p) p->next = q;` and `if (p) p->prev = q;` at the ends of a stretch, by
-- which every insertion and removal relinks the two stretches on its sides.
use cmpsc_473_operating_syst.Common.{
  ℕ, ◌≡◌, refl, true, [], ◌∷◌, arith, ◌==◌, if◌then◌else◌, length,
}
use cmpsc_473_operating_syst.Heap.{Ptr, null, Heap, Cmd, pure, set_next, set_prev}
use cmpsc_473_operating_syst.Heap.Access.{relink_first, Linked-Ends, set_next-ok, set_prev-ok}
use cmpsc_473_operating_syst.Heap.Linked.{
  Cells, first, last, has, Linked, Disjoint, SameOutside, frame, eq-false_of_has,
}
use cmpsc_473_operating_syst.Heap.Returns.{Returns, returns}

-- What a `list_t` with these fields stands for.
pub record IsList {A : Type 0} (h : Heap A) (head tail : Ptr) (count : ℕ) (xs : Cells A)
    : Type 0 where
  pub chain : Linked h null xs null
  pub head_is : head ≡ first xs null
  pub tail_is : tail ≡ last null xs
  pub count_is : count ≡ length xs

module _ {A : Type 0} where
  unfoldable pub set_next_if : Ptr → Ptr → Cmd A (Unit {0})
  set_next_if p q = if p == null then pure tt else set_next p q

  unfoldable pub set_prev_if : Ptr → Ptr → Cmd A (Unit {0})
  set_prev_if p q = if p == null then pure tt else set_prev p q

  -- A stretch survives what happens at addresses apart from it.
  pub frame_outside :
      (h g : Heap A) (before : Ptr) (xs ys : Cells A) (stop : Ptr)
      → Linked h before xs stop
      → SameOutside ys h g
      → Disjoint xs ys
      → Linked g before xs stop
  frame_outside h g before xs ys stop s same apart =
      frame before xs stop s λ a i. same a (apart a i)

  SameOutside-write :
      (h : Heap A) (a : Ptr) (xs : Cells A) (n : _)
      → has a xs ≡ true
      → SameOutside xs h (λ b. if b == a then n else h b)
  SameOutside-write h a xs n i b o = ground (arith, eq-false_of_has b a xs i o)

  pub set_next_if-last :
      (h : Heap A) (xs : Cells A) (stop q : Ptr)
      → Linked h null xs stop
      → Returns (λ _ g. Linked g null xs q × SameOutside xs h g) (set_next_if (last null xs) q h)
  unfolding set_next_if
  set_next_if-last h [] stop q s = returns (tt, λ a o. refl)
  set_next_if-last h ((p, d) ∷ xs) stop q s =
      let e = Linked-Ends h null p d xs stop s in
      rw (e.ne, set_next-ok h (last p xs) _ e.ne e.at q)
        (returns (e.relink_last q, SameOutside-write h (last p xs) ((p, d) ∷ xs) _ e.inside))

  pub set_prev_if-first :
      (h : Heap A) (before q : Ptr) (xs : Cells A)
      → Linked h before xs null
      → Returns (λ _ g. Linked g q xs null × SameOutside xs h g) (set_prev_if (first xs null) q h)
  unfolding set_prev_if
  set_prev_if-first h before q [] s = returns (tt, λ a o. refl)
  set_prev_if-first h before q ((p, d) ∷ xs) s =
      let (_, at, out, rest) = relink_first h before q p d xs null s in
      rw (s.0, set_prev-ok h p _ s.0 s.1 q)
        (returns ((refl, at, out, rest), SameOutside-write h p ((p, d) ∷ xs) _ (ground arith)))
