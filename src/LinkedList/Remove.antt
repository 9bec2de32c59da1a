-- ===== src/LinkedList/Remove.antt =====
-- `list_remove` on the cells of a list.
use mathlib.Core.Path.{subst}
use cmpsc_473_operating_syst.Common.{
  ◌-◌, ◌≡◌, refl, ◌∙◌, false, Option, none, some, [], ◌∷◌, ◌++◌, arith, ◌==◌, if◌then◌else◌, length,
  length-append,
}
use cmpsc_473_operating_syst.Heap.{Ptr, null, Heap, node, write}
use cmpsc_473_operating_syst.Heap.Access.{
  Linked-write, Linked-free, Linked-Ends, load-ok, set_next-ok, set_prev-ok, free-ok,
}
use cmpsc_473_operating_syst.Heap.Linked.{
  Cells, first, last, has, Linked, Disjoint, SameOutside, Linked-split, Linked-append, Disjoint-sym,
  frame, has-append, last-append, eq-false_of_has,
}
use cmpsc_473_operating_syst.Heap.Returns.{Returns, returns, Returns-bind}
use cmpsc_473_operating_syst.Heap.Splice.{IsList, set_next_if-last, set_prev_if-first}
use cmpsc_473_operating_syst.LinkedList.{CompareFn, ListT, list_remove}
use cmpsc_473_operating_syst.LinkedList.Insert.{list_of_lem}
use cmpsc_473_operating_syst.LinkedList.Splice.{list_of}

-- What is left when a node is taken out: a list of `ys`, and no node at `p`.
pub record Shrunk {A : Type 0} (h : Heap A) (l : ListT A) (p : Ptr) (xs ys : Cells A)
    (r : Option (ListT A)) (g : Heap A) : Type 0 where
  pub list : ListT A
  pub returned : r ≡ some list
  pub is_list : IsList g list.head list.tail list.count ys
  pub compare_is : list.compare ≡ l.compare
  pub freed : g p ≡ none
  pub same : SameOutside xs h g

tail_of_rest :
    {A : Type 0} (h : Heap A) (before p : Ptr) (d : A) (zs : Cells A) (q : Ptr)
    → Linked h before ((p, d) ∷ zs) null
    → (if p == last p zs then q else last p zs) ≡ last q zs
tail_of_rest h before p d [] q s = ground arith
tail_of_rest h before p d ((p', d') ∷ zs) q (ne, at, out, s) =
    let end = Linked-Ends h p p' d' zs null s in
    rw (eq-false_of_has p (last p' zs) ((p', d') ∷ zs) end.inside out)

module _ {A : Type 0} (h : Heap A) (ys : Cells A) (p : Ptr) (d : A) (zs : Cells A)
    (s : Linked h null (ys ++ (p, d) ∷ zs) null) where
  pub parts :
      Linked h null ys p × Linked h (last null ys) ((p, d) ∷ zs) null × Disjoint ys ((p, d) ∷ zs)
  parts = Linked-split h null ys ((p, d) ∷ zs) null s

  p_out : has p ys ≡ false
  p_out = Disjoint-sym ys ((p, d) ∷ zs) parts.2 p (ground arith)

  apart : Disjoint ys zs
  apart a i = let o = parts.2 a i in ground (arith, o)

  -- `if (node == list->head) list->head = node->next;`
  pub head_without :
      (if p == first (ys ++ (p, d) ∷ zs) null
        then first zs null
        else first (ys ++ (p, d) ∷ zs) null)
      ≡ first (ys ++ zs) null
  head_without =
      elim ys
          as (λ ys.
            has p ys ≡ false
            → (if p == first (ys ++ (p, d) ∷ zs) null
                then first zs null
                else first (ys ++ (p, d) ∷ zs) null)
              ≡ first (ys ++ zs) null) [ [] ↦ λ o. ground arith | y ∷ ys ↦ λ o. ground arith ]
        p_out

  -- `if (node == list->tail) list->tail = node->prev;`
  pub tail_without : (if p == last p zs then last null ys else last p zs) ≡ last (last null ys) zs
  tail_without = tail_of_rest h (last null ys) p d zs (last null ys) parts.1

  -- What the last writes, all of them to the node itself, leave of the list.
  pub all_out : (p == null) ≡ false
  all_out = parts.1.0

  pub out_of_rest : has p (ys ++ zs) ≡ false
  out_of_rest = rw (has-append p ys zs, p_out) parts.1.2

  pub outside :
      (a : Ptr)
      → has a (ys ++ (p, d) ∷ zs) ≡ false
      → (has a ys ≡ false) × ((a == p) ≡ false) × (has a zs ≡ false)
  outside a o = let o' = rw has-append at o in ground (arith, o')

  module _ (g : Heap A) (l : Linked g null ys (first zs null)) (same : SameOutside ys h g) where
    pub g_rest : Linked g (last null ys) ((p, d) ∷ zs) null
    g_rest =
        frame (last null ys) ((p, d) ∷ zs) null parts.1
          λ a i. same a (Disjoint-sym ys ((p, d) ∷ zs) parts.2 a i)

    module _ (f : Heap A) (r : Linked f (last null ys) zs null) (same' : SameOutside zs g f) where
      pub f_at : f p ≡ some (node (first zs null) (last null ys) d)
      f_at = same' p parts.1.2 ∙ g_rest.1

      pub f-Linked : Linked f null (ys ++ zs) null
      f-Linked =
          Linked-append f null ys zs null
            (frame null ys (first zs null) l λ a i. same' a (apart a i)) r apart

  list_remove_at :
      (compare : Option (CompareFn A))
      → let l = list_of (ys ++ (p, d) ∷ zs) (length (ys ++ (p, d) ∷ zs)) compare in
        Returns (Shrunk h l p (ys ++ (p, d) ∷ zs) (ys ++ zs)) (list_remove (some l) p h)
  unfolding list_remove
  list_remove_at compare =
      let n = node (first zs null) (last null ys) d in
      rw (all_out, load-ok h p n all_out parts.1.1)
        (Returns-bind (set_next_if-last h ys p (first zs null) parts.0) λ _ g (l, same).
          let rest = g_rest g l same in
          rw (load-ok g p n all_out rest.1) (
            Returns-bind (set_prev_if-first g p (last null ys) zs rest.3) λ _ f (r, same').
              let at : f p ≡ some n = f_at g l same f r same' in
              let f1 = write f p (some (node null (last null ys) d)) in
              let f2 = write f1 p (some (node null null d)) in
              rw
                (
                  set_next-ok f p n all_out at null,
                  set_prev-ok f1 p (node null (last null ys) d) all_out (ground arith) null,
                  free-ok f2 p (node null null d) all_out (ground arith),
                )
                (returns (record {
                  list = record {
                    head =
                        if p == first (ys ++ (p, d) ∷ zs) null
                        then first zs null
                        else first (ys ++ (p, d) ∷ zs) null;
                    tail =
                        if p == last null (ys ++ (p, d) ∷ zs)
                        then last null ys
                        else last null (ys ++ (p, d) ∷ zs);
                    count = length (ys ++ (p, d) ∷ zs) - 1;
                    compare = compare;
                  };
                  returned = refl;
                  is_list = record {
                    chain =
                        Linked-free f2 null (ys ++ zs) null p
                          (Linked-write f1 null (ys ++ zs) null p _
                            (Linked-write f null (ys ++ zs) null p _ (f-Linked g l same f r same')
                              out_of_rest)
                            out_of_rest)
                          out_of_rest;
                    head_is = head_without;
                    tail_is =
                        rw (last-append null ys ((p, d) ∷ zs), last-append null ys zs) tail_without;
                    count_is = omega (arith, length-append ys ((p, d) ∷ zs), length-append ys zs);
                  };
                  compare_is = refl;
                  freed = ground arith;
                  same =
                      λ a o. let (oy, away, oz) = outside a o in rw away (same' a oz ∙ same a oy);
                }))))

module _ {A : Type 0} where
  -- Given a list and one of its nodes, `list_remove` takes exactly that node out, leaves the other
  -- cells in their order, counts them, frees the node, and touches no node outside the list.
  pub list_remove-append :
      (h : Heap A) (l : ListT A) (ys : Cells A) (p : Ptr) (d : A) (zs : Cells A)
      → IsList h l.head l.tail l.count (ys ++ (p, d) ∷ zs)
      → Returns (Shrunk h l p (ys ++ (p, d) ∷ zs) (ys ++ zs)) (list_remove (some l) p h)
  list_remove-append h l ys p d zs is =
      subst
        (λ l'. Returns (Shrunk h l' p (ys ++ (p, d) ∷ zs) (ys ++ zs)) (list_remove (some l') p h))
        (list_of_lem h l (ys ++ (p, d) ∷ zs) is) (list_remove_at h ys p d zs is.chain l.compare)
