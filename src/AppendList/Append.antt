-- ===== src/AppendList/Append.antt =====
-- `list_insert` appends one cell.
use mathlib.Core.Path.{subst}
use cmpsc_473_operating_syst.Common.{
  ◌≡◌, ◌≢◌, refl, sym, ◌∙◌, false, none, some, [], ◌∷◌, ◌++◌, arith, ◌==◌, if◌then◌else◌, length,
  length-append,
}
use cmpsc_473_operating_syst.Heap.{Ptr, null, Heap, node, write}
use cmpsc_473_operating_syst.Heap.Access.{Linked-write, Linked-Ends}
use cmpsc_473_operating_syst.Heap.Linked.{
  Cells, first, last, Linked, SameOutside, Linked-append, not-has_of_none, last-append,
  eq-false_of_has,
}
use cmpsc_473_operating_syst.Heap.Returns.{Returns, returns, Returns-bind}
use cmpsc_473_operating_syst.Heap.Splice.{IsList, set_next_if-last}
use cmpsc_473_operating_syst.AppendList.{ListT, list_insert}

module _ {A : Type 0} where
  abbrev pub list_of : Cells A → ListT
  list_of xs = record { head = first xs null; tail = last null xs; count = length xs }

  pub list_of_lem :
      (h : Heap A) (l : ListT) (xs : Cells A) → IsList h l.head l.tail l.count xs → list_of xs ≡ l
  list_of_lem h l xs is =
      λ i. record { head = sym is.head_is i; tail = sym is.tail_is i; count = sym is.count_is i }

  -- The list stands for `xs` now, and only memory of `touched` has changed.
  abbrev pub Now : Heap A → Cells A → Cells A → ListT → Heap A → Type 0
  Now h touched xs l g = IsList g l.head l.tail l.count xs × SameOutside touched h g

  head_with :
      (p : Ptr) (d : A) (h : Heap A) (xs : Cells A)
      → Linked h null xs null
      → (if last null xs == null then p else first xs null) ≡ first (xs ++ (p, d) ∷ []) null
  head_with p d h [] s = refl
  head_with p d h ((q, e) ∷ xs) s = rw (Linked-Ends h null q e xs null s).ne refl

  list_insert_at :
      (h : Heap A) (xs : Cells A) (p : Ptr) (d : A)
      → Linked h null xs null
      → (p == null) ≡ false
      → h p ≡ none
      → Returns
          (λ (q, l) g.
            (q ≡ p) × ((l' : ListT) × (l ≡ some l') × Now h ((p, d) ∷ xs) (xs ++ (p, d) ∷ []) l' g))
          (list_insert p (some (list_of xs)) d h)
  unfolding list_insert
  list_insert_at h xs p d s ne unused =
      let out = not-has_of_none h p null xs null s unused in
      let n = node null (last null xs) d in
      let h1 = write h p (some n) in
      let s1 = Linked-write h null xs null p n s out in
      rw ne (
        Returns-bind (set_next_if-last h1 xs null p s1) λ _ g (chain, same). returns (
          refl,
          (
            _,
            refl,
            (
              record {
                chain =
                    Linked-append g null xs ((p, d) ∷ []) null chain
                      (ne, same p out ∙ ground arith, refl, tt)
                      (λ a i. ground (arith, eq-false_of_has p a xs i out));
                head_is = head_with p d h xs s;
                tail_is = sym (last-append null xs ((p, d) ∷ []));
                count_is = omega (arith, length-append xs ((p, d) ∷ []));
              },
              λ a o. ground (arith, same a),
            ),
          ),
        ))

  -- Given a list of the cells `xs` and an unused address from `malloc`, `list_insert` returns that
  -- address and a list of `xs` with the new cell at the end, counts it, and touches no node outside
  -- the list.
  pub list_insert-append :
      (h : Heap A) (l : ListT) (xs : Cells A) (p : Ptr) (d : A)
      → IsList h l.head l.tail l.count xs
      → p ≢ null
      → h p ≡ none
      → Returns
          (λ (q, r) g.
            (q ≡ p) × ((l' : ListT) × (r ≡ some l') × Now h ((p, d) ∷ xs) (xs ++ (p, d) ∷ []) l' g))
          (list_insert p (some l) d h)
  list_insert-append h l xs p d is ne unused =
      subst
        (λ l'.
          Returns
            (λ (q, r) g.
              (q ≡ p)
              × ((l' : ListT) × (r ≡ some l') × Now h ((p, d) ∷ xs) (xs ++ (p, d) ∷ []) l' g))
            (list_insert p (some l') d h))
        (list_of_lem h l xs is) (list_insert_at h xs p d is.chain (ground arith) unused)
