-- ===== src/LinkedList/Walk.antt =====
-- The loops of `list_find` and `list_destroy`.
use cmpsc_473_operating_syst.Common.{
  ℕ, zero, suc, ◌+◌, ◌<◌, ◌≡◌, refl, inl, inr, Bool, none, some, [], ◌∷◌, arith, if◌then◌else◌,
  Bool-cases, length,
}
use cmpsc_473_operating_syst.Heap.{Ptr, null, Heap, write, ok}
use cmpsc_473_operating_syst.Heap.Access.{Linked-free, load-ok, free-ok}
use cmpsc_473_operating_syst.Heap.Linked.{Cells, first, has, Linked}
use cmpsc_473_operating_syst.Heap.Returns.{Returns, returns, Returns-mono}
use cmpsc_473_operating_syst.Heap.Splice.{IsList}
use cmpsc_473_operating_syst.LinkedList.{ListT, find_from, list_find, destroy_from, list_destroy}

module _ {A : Type 0} where
  -- The address of the first cell whose data is `d`, or NULL.
  unfoldable pub find_cell : (A → A → Bool) → A → Cells A → Ptr
  find_cell is d [] = null
  find_cell is d ((p, e) ∷ xs) = if is e d then p else find_cell is d xs

  find_from-find_cell :
      (is : A → A → Bool) (d : A) (fuel : ℕ) (h : Heap A) (before : Ptr) (xs : Cells A)
      → Linked h before xs null
      → length xs < fuel
      → find_from is fuel (first xs null) d h ≡ ok (find_cell is d xs) h
  unfolding find_from find_cell
  find_from-find_cell is d zero h before xs s enough = absurd (omega arith)
  find_from-find_cell is d (suc fuel) h before [] s enough = refl
  find_from-find_cell is d (suc fuel) h before ((p, e) ∷ xs) (ne, at, out, s) enough =
      rw (ne, load-ok h p _ ne at)
        (elim (Bool-cases (is e d)) [
          | inl hit ↦ rw hit
          | inr miss ↦ rw miss (find_from-find_cell is d fuel h p xs s (omega arith))
        ])

  -- On a list of the cells `xs`, `list_find` ends, changes nothing, and returns the address of the
  -- first cell with the data looked for, or NULL if there is none.
  pub list_find-find_cell :
      (is : A → A → Bool) (h : Heap A) (l : ListT A) (xs : Cells A) (d : A)
      → IsList h l.head l.tail l.count xs
      → list_find is (some l) d h ≡ ok (find_cell is d xs) h
  unfolding list_find
  list_find-find_cell is h l xs d li =
      rw li.head_is
        (find_from-find_cell is d (l.count + 1) h null xs li.chain (omega (arith, li.count_is)))

  -- `g` is `h` less the nodes of `xs`.
  abbrev pub Without : Cells A → Heap A → Heap A → Type 0
  Without xs h g = (a : Ptr) → g a ≡ (if has a xs then none else h a)

  destroy_from-Without :
      (fuel : ℕ) (h : Heap A) (before : Ptr) (xs : Cells A)
      → Linked h before xs null
      → length xs < fuel
      → Returns (λ _. Without xs h) (destroy_from fuel (first xs null) h)
  unfolding destroy_from
  destroy_from-Without zero h before xs s enough = absurd (omega arith)
  destroy_from-Without (suc fuel) h before [] s enough = returns λ a. refl
  destroy_from-Without (suc fuel) h before ((p, d) ∷ xs) (ne, at, out, s) enough =
      rw (ne, load-ok h p _ ne at, free-ok h p _ ne at)
        (Returns-mono
          (destroy_from-Without fuel (write h p none) p xs (Linked-free h p xs null p s out)
            (omega arith))
          λ _ g gone a. ground (arith, gone a))

  -- `list_destroy` frees exactly the nodes of the list, each once.
  pub list_destroy-Without :
      (h : Heap A) (l : ListT A) (xs : Cells A)
      → IsList h l.head l.tail l.count xs
      → Returns (λ _. Without xs h) (list_destroy (some l) h)
  unfolding list_destroy
  list_destroy-Without h l xs li =
      rw li.head_is
        (destroy_from-Without (l.count + 1) h null xs li.chain (omega (arith, li.count_is)))
