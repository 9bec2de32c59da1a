-- ===== src/Heap/Access.antt =====
-- What the commands do at a node of a linked stretch.
use cmpsc_473_operating_syst.Common.{◌≡◌, refl, true, false, none, some, [], ◌∷◌, arith, ◌==◌}
use cmpsc_473_operating_syst.Heap.{
  Ptr, null, Node, Heap, node, write, ok, load, set_next, set_prev, free,
}
use cmpsc_473_operating_syst.Heap.Linked.{Cells, first, last, has, Linked, frame, eq-false_of_has}

module _ {A : Type 0} (h : Heap A) (p : Ptr) (n : Node A) (ne : (p == null) ≡ false)
    (at : h p ≡ some n) where
  pub load-ok : load p h ≡ ok n h
  unfolding load
  load-ok = rw (ne, at)

  pub set_next-ok : (q : Ptr) → set_next p q h ≡ ok tt (write h p (some (record n { next = q })))
  unfolding set_next
  set_next-ok q = rw load-ok

  pub set_prev-ok : (q : Ptr) → set_prev p q h ≡ ok tt (write h p (some (record n { prev = q })))
  unfolding set_prev
  set_prev-ok q = rw load-ok

  pub free-ok : free p h ≡ ok tt (write h p none)
  unfolding free
  free-ok = rw load-ok

module _ {A : Type 0} where
  -- A write elsewhere leaves a stretch as it was.
  pub Linked-write :
      (h : Heap A) (before : Ptr) (xs : Cells A) (stop a : Ptr) (n : Node A)
      → Linked h before xs stop
      → has a xs ≡ false
      → Linked (write h a (some n)) before xs stop
  Linked-write h before xs stop a n s out = frame before xs stop s λ b i. ground arith

  pub Linked-free :
      (h : Heap A) (before : Ptr) (xs : Cells A) (stop a : Ptr)
      → Linked h before xs stop
      → has a xs ≡ false
      → Linked (write h a none) before xs stop
  Linked-free h before xs stop a s out = frame before xs stop s λ b i. ground arith

  -- The first node of a stretch can be pointed back elsewhere.
  pub relink_first :
      (h : Heap A) (before q p : Ptr) (d : A) (xs : Cells A) (stop : Ptr)
      → Linked h before ((p, d) ∷ xs) stop
      → Linked (write h p (some (node (first xs stop) q d))) q ((p, d) ∷ xs) stop
  relink_first h before q p d xs stop (ne, at, out, s) =
      (ne, ground arith, out, Linked-write h p xs stop p _ s out)

  -- The last node of a stretch, and that it can be pointed on elsewhere.
  pub record Ends (h : Heap A) (before p : Ptr) (d : A) (xs : Cells A) (stop : Ptr) : Type 0 where
    pub back : Ptr
    pub value : A
    pub ne : (last p xs == null) ≡ false
    pub at : h (last p xs) ≡ some (node stop back value)
    pub inside : has (last p xs) ((p, d) ∷ xs) ≡ true
    pub relink_last :
        (q : Ptr) → Linked (write h (last p xs) (some (node q back value))) before ((p, d) ∷ xs) q

  pub Linked-Ends :
      (h : Heap A) (before p : Ptr) (d : A) (xs : Cells A) (stop : Ptr)
      → Linked h before ((p, d) ∷ xs) stop
      → Ends h before p d xs stop
  Linked-Ends h before p d [] stop (ne, at, out, s) = record {
    back = before;
    value = d;
    ne = ne;
    at = at;
    inside = ground arith;
    relink_last = λ q. (ne, ground arith, refl, tt);
  }
  Linked-Ends h before p d ((p', d') ∷ xs) stop (ne, at, out, s) =
      let rest = Linked-Ends h p p' d' xs stop s in
      record {
        back = rest.back;
        value = rest.value;
        ne = rest.ne;
        at = rest.at;
        inside = ground (arith, rest.inside);
        relink_last = λ q. (
          ne,
          rw (eq-false_of_has p (last p' xs) ((p', d') ∷ xs) rest.inside out) at,
          out,
          rest.relink_last q,
        );
      }
