-- ===== src/AppendList/Unlink.antt =====
-- `list_remove` takes one cell out.
use mathlib.Core.Path.{subst}
use cmpsc_473_operating_syst.Common.{◌≡◌, refl, ◌∙◌, none, some, ◌∷◌, ◌++◌, arith, length-append}
use cmpsc_473_operating_syst.Heap.{Ptr, null, Heap, node}
use cmpsc_473_operating_syst.Heap.Access.{Linked-free, load-ok, free-ok}
use cmpsc_473_operating_syst.Heap.Linked.{Cells, first, last, Linked, last-append}
use cmpsc_473_operating_syst.Heap.Returns.{Returns, returns, Returns-bind}
use cmpsc_473_operating_syst.Heap.Splice.{IsList, set_next_if-last, set_prev_if-first}
use cmpsc_473_operating_syst.LinkedList.Remove.{
  parts, all_out, g_rest, f_at, f-Linked, out_of_rest, outside, head_without, tail_without,
}
use cmpsc_473_operating_syst.AppendList.{ListT, list_remove}
use cmpsc_473_operating_syst.AppendList.Append.{list_of, list_of_lem, Now}

module _ {A : Type 0} (h : Heap A) (ys : Cells A) (p : Ptr) (d : A) (zs : Cells A)
    (s : Linked h null (ys ++ (p, d) ∷ zs) null) where
  list_remove_at :
      Returns
        (λ r g.
          (g p ≡ none) × ((l' : ListT) × (r ≡ some l') × Now h (ys ++ (p, d) ∷ zs) (ys ++ zs) l' g))
        (list_remove (some (list_of (ys ++ (p, d) ∷ zs))) p h)
  unfolding list_remove
  list_remove_at =
      let n = node (first zs null) (last null ys) d in
      let sides = parts h ys p d zs s in
      let ne = all_out h ys p d zs s in
      rw (ne, load-ok h p n ne sides.1.1)
        (Returns-bind (set_next_if-last h ys p (first zs null) sides.0) λ _ g (l, same).
          let rest = g_rest h ys p d zs s g l same in
          rw (load-ok g p n ne rest.1) (
            Returns-bind (set_prev_if-first g p (last null ys) zs rest.3) λ _ f (r, same').
              let at = f_at h ys p d zs s g l same f r same' in
              rw (free-ok f p n ne at) (
                returns (
                  ground arith,
                  (
                    _,
                    refl,
                    (
                      record {
                        chain =
                            Linked-free f null (ys ++ zs) null p
                              (f-Linked h ys p d zs s g l same f r same')
                              (out_of_rest h ys p d zs s);
                        head_is = head_without h ys p d zs s;
                        tail_is =
                            rw (last-append null ys ((p, d) ∷ zs), last-append null ys zs)
                              (tail_without h ys p d zs s);
                        count_is =
                            omega (arith, length-append ys ((p, d) ∷ zs), length-append ys zs);
                      },
                      λ a o.
                          let (oy, away, oz) = outside h ys p d zs s a o in
                          rw away (same' a oz ∙ same a oy),
                    ),
                  ),
                ))))

module _ {A : Type 0} where
  -- Given a list and one of its nodes, `list_remove` takes exactly that node out, leaves the other
  -- cells in their order, counts them, frees the node, and touches no node outside the list.
  pub list_remove-unlinked :
      (h : Heap A) (l : ListT) (ys : Cells A) (p : Ptr) (d : A) (zs : Cells A)
      → IsList h l.head l.tail l.count (ys ++ (p, d) ∷ zs)
      → Returns
          (λ r g.
            (g p ≡ none)
            × ((l' : ListT) × (r ≡ some l') × Now h (ys ++ (p, d) ∷ zs) (ys ++ zs) l' g))
          (list_remove (some l) p h)
  list_remove-unlinked h l ys p d zs is =
      subst
        (λ l'.
          Returns
            (λ r g.
              (g p ≡ none)
              × ((l' : ListT) × (r ≡ some l') × Now h (ys ++ (p, d) ∷ zs) (ys ++ zs) l' g))
            (list_remove (some l') p h))
        (list_of_lem h l (ys ++ (p, d) ∷ zs) is) (list_remove_at h ys p d zs is.chain)
