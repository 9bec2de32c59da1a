-- ===== src/LinkedList/Cells.antt =====
-- Predicates on the cells of a list, and what an insertion in order does to them.
use cmpsc_473_operating_syst.Common.{
  ◌≡◌, refl, inl, inr, false, some, [], ◌∷◌, arith, ◌==◌, if◌then◌else◌, Bool-cases,
}
use cmpsc_473_operating_syst.Heap.{Ptr, null}
use cmpsc_473_operating_syst.Heap.Linked.{Cells, has}
use cmpsc_473_operating_syst.LinkedList.{goes_before, CompareFn}
use cmpsc_473_operating_syst.LinkedList.Insert.{insert_cell}

module _ {A : Type 0} where
  abbrev pub All : (A → Type 0) → Cells A → Type 0
  All P [] = Unit {0}
  All P ((p, e) ∷ xs) = P e × All P xs

  pub All-mono : (P Q : A → Type 0) (xs : Cells A) → ((e : A) → P e → Q e) → All P xs → All Q xs
  All-mono P Q [] f a = tt
  All-mono P Q ((p, e) ∷ xs) f (h, a) = (f e h, All-mono P Q xs f a)

  -- The addresses of the nodes are distinct and none is NULL.
  abbrev pub Distinct : Cells A → Type 0
  Distinct [] = Unit {0}
  Distinct ((p, e) ∷ xs) = ((p == null) ≡ false) × (has p xs ≡ false) × Distinct xs

  pub insert_cell-cons :
      (compare : CompareFn A) (p : Ptr) (d : A) (q : Ptr) (e : A) (xs : Cells A)
      → insert_cell (some compare) (p, d) ((q, e) ∷ xs) ≡ (
          if goes_before compare e d
          then (q, e) ∷ insert_cell (some compare) (p, d) xs
          else (p, d) ∷ (q, e) ∷ xs)
  unfolding insert_cell
  insert_cell-cons compare p d q e xs = ground arith

  pub insert_cell-nil :
      (compare : CompareFn A) (p : Ptr) (d : A) → insert_cell (some compare) (p, d) [] ≡ (p, d) ∷ []
  unfolding insert_cell
  insert_cell-nil compare p d = refl

  pub has-insert_cell :
      (compare : CompareFn A) (a p : Ptr) (d : A) (xs : Cells A)
      → (a == p) ≡ false
      → has a (insert_cell (some compare) (p, d) xs) ≡ has a xs
  has-insert_cell compare a p d [] n = rw insert_cell-nil (ground arith)
  has-insert_cell compare a p d ((q, e) ∷ xs) n =
      rw insert_cell-cons (ground (arith, has-insert_cell compare a p d xs n))

  pub All-insert_cell :
      (P : A → Type 0) (compare : CompareFn A) (p : Ptr) (d : A) (xs : Cells A)
      → P d
      → All P xs
      → All P (insert_cell (some compare) (p, d) xs)
  All-insert_cell P compare p d [] h a = rw insert_cell-nil (h, tt)
  All-insert_cell P compare p d ((q, e) ∷ xs) h (g, a) =
      rw insert_cell-cons (elim (Bool-cases (goes_before compare e d)) [
        | inl more ↦ rw more (g, All-insert_cell P compare p d xs h a)
        | inr stop ↦ rw stop (h, (g, a))
      ])

  pub Distinct-insert_cell :
      (compare : CompareFn A) (p : Ptr) (d : A) (xs : Cells A)
      → (p == null) ≡ false
      → has p xs ≡ false
      → Distinct xs
      → Distinct (insert_cell (some compare) (p, d) xs)
  Distinct-insert_cell compare p d [] ne out a = rw insert_cell-nil (ne, refl, tt)
  Distinct-insert_cell compare p d ((q, e) ∷ xs) ne out (ne', out', a) =
      rw insert_cell-cons (elim (Bool-cases (goes_before compare e d)) [
        | inl more ↦ rw more (
          ne',
          rw (has-insert_cell compare q p d xs (ground arith)) out',
          Distinct-insert_cell compare p d xs ne (ground arith) a,
        )
        | inr stop ↦ rw stop (ne, out, (ne', out', a))
      ])
