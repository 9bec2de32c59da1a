-- ===== src/LinkedList/Insert.antt =====
-- `list_insert` refines an insertion into the list of cells.
use cmpsc_473_operating_syst.Common.{
  ℕ, zero, suc, ◌+◌, ◌≤◌, ◌<◌, ◌≡◌, ◌≢◌, refl, sym, ◌∙◌, ap, inl, inr, false, Option, none, some,
  [], ◌∷◌, ◌++◌, arith, ◌==◌, if◌then◌else◌, Bool-cases, length, length-append,
}
use mathlib.Core.List.{append-nil}
use mathlib.Core.Path.{subst}
use cmpsc_473_operating_syst.Heap.{Ptr, null, Heap, node, write, ok}
use cmpsc_473_operating_syst.Heap.Access.{Linked-write, load-ok}
use cmpsc_473_operating_syst.Heap.Linked.{
  Cells, first, last, has, Linked, SameOutside, Linked-split, not-has_of_none, last-append,
  has-append,
}
use cmpsc_473_operating_syst.Heap.Returns.{Returns, returns, Returns-bind, Returns-mono}
use cmpsc_473_operating_syst.Heap.Splice.{IsList}
use cmpsc_473_operating_syst.LinkedList.{
  CompareFn, ListT, goes_before, slot_from, append_at_tail, insert_before, place, list_insert,
}
use cmpsc_473_operating_syst.LinkedList.Splice.{
  Spliced, list_of, insert_at_head-Spliced, append_at_tail-Spliced, insert_before-Spliced,
}

module _ {A : Type 0} where
  -- The cells that a new datum goes behind, and the rest.
  unfoldable pub front : CompareFn A → A → Cells A → Cells A
  front compare d [] = []
  front compare d ((p, e) ∷ xs) =
      if goes_before compare e d then (p, e) ∷ front compare d xs else []

  unfoldable pub back : CompareFn A → A → Cells A → Cells A
  back compare d [] = []
  back compare d ((p, e) ∷ xs) = if goes_before compare e d then back compare d xs else (p, e) ∷ xs

  pub front-append-back :
      (compare : CompareFn A) (d : A) (xs : Cells A) → front compare d xs ++ back compare d xs ≡ xs
  unfolding front back
  front-append-back compare d [] = refl
  front-append-back compare d ((p, e) ∷ xs) = ground (arith, front-append-back compare d xs)

  -- Where a comparison puts a new cell: behind all that go before it; without one, at the head.
  unfoldable pub insert_cell : Option (CompareFn A) → Ptr × A → Cells A → Cells A
  unfolding front back
  insert_cell none c xs = c ∷ xs
  insert_cell (some compare) c xs = front compare c.1 xs ++ c ∷ back compare c.1 xs

  -- The loop of `list_insert` stops at the first of those cells.
  slot_from-back :
      (compare : CompareFn A) (d : A) (fuel : ℕ) (h : Heap A) (before : Ptr) (xs : Cells A)
      → Linked h before xs null
      → length xs < fuel
      → slot_from compare fuel (first xs null) d h ≡ ok (first (back compare d xs) null) h
  unfolding slot_from back
  slot_from-back compare d zero h before xs s enough = absurd (omega arith)
  slot_from-back compare d (suc fuel) h before [] s enough = refl
  slot_from-back compare d (suc fuel) h before ((p, e) ∷ xs) (ne, at, out, s) enough =
      rw (ne, load-ok h p _ ne at)
        (elim (Bool-cases (goes_before compare e d)) [
          | inl more ↦ rw more (slot_from-back compare d fuel h p xs s (omega arith))
          | inr stop ↦ rw stop
        ])

-- The structure `l'` stands for `ys` in `g`, which differs from `h` at `xs` at most.
pub record Inserted {A : Type 0} (h : Heap A) (l : ListT A) (xs ys : Cells A) (l' : ListT A)
    (g : Heap A) : Type 0 where
  pub chain : Linked g null ys null
  pub head_is : l'.head ≡ first ys null
  pub tail_is : l'.tail ≡ last null ys
  pub count_is : l'.count ≡ l.count
  pub compare_is : l'.compare ≡ l.compare
  pub same : SameOutside xs h g

module _ {A : Type 0} (h : Heap A) (p : Ptr) (d : A) (ne : (p == null) ≡ false)
    (at : h p ≡ some (node null null d)) (count : ℕ) where
  Spliced-Inserted :
      (compare : Option (CompareFn A)) (ys zs : Cells A) (l' : ListT A) (g : Heap A)
      → Spliced h (list_of (ys ++ zs) count compare) p d ys zs l' g
      → Inserted h (list_of (ys ++ zs) count compare) ((p, d) ∷ ys ++ zs) (ys ++ (p, d) ∷ zs) l' g
  Spliced-Inserted compare ys zs l' g s = record {
    chain = s.chain;
    head_is = s.head_is;
    tail_is = s.tail_is ∙ sym (last-append null ys ((p, d) ∷ zs));
    count_is = s.count_is;
    compare_is = s.compare_is;
    same = λ a o.
        let o' = rw has-append at o in
        s.same a (ground arith) (ground (arith, o')) (ground (arith, o'));
  }

  link_in-Spliced :
      (compare : Option (CompareFn A)) (ys zs : Cells A)
      → Linked h null (ys ++ zs) null
      → has p (ys ++ zs) ≡ false
      → (first (ys ++ zs) null == null) ≡ false
      → let l = list_of (ys ++ zs) count compare in
        Returns (Spliced h l p d ys zs) (
          (if first zs null == null then append_at_tail p l else insert_before (first zs null) p l)
            h)
  link_in-Spliced compare [] [] s out some_node = cc
  link_in-Spliced compare ((q, e) ∷ ys) [] s out some_node = rw (append-nil ys) (
      append_at_tail-Spliced h p d ne at count compare q e ys (rw (append-nil ys) at s)
        (rw (append-nil ys) at out))
  link_in-Spliced compare ys ((q, e) ∷ zs) s out some_node =
      let split = Linked-split h null ys ((q, e) ∷ zs) null s in
      rw (split.1.0) (insert_before-Spliced h p d ne at count compare ys q e zs s out)

  link_in-Inserted :
      (compare : Option (CompareFn A)) (ys zs xs : Cells A)
      → ys ++ zs ≡ xs
      → Linked h null xs null
      → has p xs ≡ false
      → (first xs null == null) ≡ false
      → let l = list_of xs count compare in
        Returns (Inserted h l ((p, d) ∷ xs) (ys ++ (p, d) ∷ zs)) (
          (if first zs null == null then append_at_tail p l else insert_before (first zs null) p l)
            h)
  link_in-Inserted compare ys zs xs e =
      subst
        (λ xs.
          Linked h null xs null
          → has p xs ≡ false
          → (first xs null == null) ≡ false
          → let l = list_of xs count compare in
            Returns (Inserted h l ((p, d) ∷ xs) (ys ++ (p, d) ∷ zs)) (
              (if first zs null == null
                  then append_at_tail p l
                  else insert_before (first zs null) p l)
                h))
        e
        (λ s out n.
          Returns-mono (link_in-Spliced compare ys zs s out n) (Spliced-Inserted compare ys zs))

  place-Inserted :
      (compare : Option (CompareFn A)) (xs : Cells A)
      → Linked h null xs null
      → has p xs ≡ false
      → length xs ≤ count
      → let l = list_of xs count compare in
        Returns (Inserted h l ((p, d) ∷ xs) (insert_cell compare (p, d) xs)) (place compare p d l h)
  unfolding place insert_cell
  place-Inserted none xs s out enough =
      Returns-mono (insert_at_head-Spliced h p d ne at count none xs s out)
        (Spliced-Inserted none [] xs)
  place-Inserted (some compare) [] s out enough =
      Returns-mono (insert_at_head-Spliced h p d ne at count (some compare) [] s out)
        (Spliced-Inserted (some compare) [] [])
  place-Inserted (some compare) ((q, e) ∷ xs) s out enough =
      let xs' : Cells A = (q, e) ∷ xs in
      rw (s.0, slot_from-back compare d (count + 1) h null xs' s (omega arith))
        (link_in-Inserted (some compare) (front compare d xs') (back compare d xs') xs'
          (front-append-back compare d xs') s out s.0)

-- What a caller of `list_insert` gets: the new node's address, and a list of the cells `ys` with the
-- order that it had. Nodes outside `xs` are as they were.
pub record Grown {A : Type 0} (h : Heap A) (l : ListT A) (p : Ptr) (xs ys : Cells A)
    (r : Ptr × Option (ListT A)) (g : Heap A) : Type 0 where
  pub list : ListT A
  pub returned : r ≡ (p, some list)
  pub is_list : IsList g list.head list.tail list.count ys
  pub compare_is : list.compare ≡ l.compare
  pub same : SameOutside xs h g

-- A structure that stands for `xs` is determined by `xs` and its order.
pub list_of_lem :
    {A : Type 0} (h : Heap A) (l : ListT A) (xs : Cells A)
    → IsList h l.head l.tail l.count xs
    → list_of xs (length xs) l.compare ≡ l
list_of_lem h l xs is = λ i. record {
  head = sym is.head_is i;
  tail = sym is.tail_is i;
  count = sym is.count_is i;
  compare = l.compare;
}

module _ {A : Type 0} where
  length-insert_cell :
      (compare : Option (CompareFn A)) (c : Ptr × A) (xs : Cells A)
      → length (insert_cell compare c xs) ≡ length xs + 1
  unfolding insert_cell
  length-insert_cell none c xs = omega arith
  length-insert_cell (some compare) c xs = omega (
    arith,
    length-append (front compare c.1 xs) (c ∷ back compare c.1 xs),
    length-append (front compare c.1 xs) (back compare c.1 xs),
    ap length (front-append-back compare c.1 xs),
  )

  list_insert_at :
      (h : Heap A) (xs : Cells A) (compare : Option (CompareFn A)) (p : Ptr) (d : A)
      → Linked h null xs null
      → (p == null) ≡ false
      → h p ≡ none
      → let l = list_of xs (length xs) compare in
        Returns
          (Grown h l p ((p, d) ∷ xs) (insert_cell compare (p, d) xs))
          (list_insert p (some l) d h)
  unfolding list_insert
  list_insert_at h xs compare p d s ne unused =
      let out = not-has_of_none h p null xs null s unused in
      let h1 = write h p (some (node null null d)) in
      rw ne (
        Returns-bind
          (place-Inserted h1 p d ne (ground arith) (length xs) compare xs
            (Linked-write h null xs null p (node null null d) s out) out (omega arith))
          λ l' g i. returns (record {
            list = record l' { count = l'.count + 1 };
            returned = refl;
            is_list = record {
              chain = i.chain;
              head_is = i.head_is;
              tail_is = i.tail_is;
              count_is = omega (arith, i.count_is, length-insert_cell compare (p, d) xs);
            };
            compare_is = i.compare_is;
            same = λ a o. ground (arith, i.same a);
          }))

  -- Given a list of the cells `xs` and an unused address `p` from `malloc`, `list_insert` returns `p`
  -- and a list in which the new cell stands behind exactly the leading cells that the list's
  -- comparison puts before it, or at the head if the list has no comparison. The other cells keep
  -- their order, the count is their number, and no node outside the list is touched.
  pub list_insert-insert_cell :
      (h : Heap A) (l : ListT A) (xs : Cells A) (p : Ptr) (d : A)
      → IsList h l.head l.tail l.count xs
      → p ≢ null
      → h p ≡ none
      → Returns
          (Grown h l p ((p, d) ∷ xs) (insert_cell l.compare (p, d) xs))
          (list_insert p (some l) d h)
  list_insert-insert_cell h l xs p d is ne unused =
      subst
        (λ l'.
          Returns (Grown h l' p ((p, d) ∷ xs) (insert_cell l.compare (p, d) xs))
            (list_insert p (some l') d h))
        (list_of_lem h l xs is) (list_insert_at h xs l.compare p d is.chain (ground arith) unused)
