-- ===== src/LinkedList/Splice.antt =====
-- The three ways in which `list_insert` links a new node in.
use cmpsc_473_operating_syst.Common.{
  ℕ, ◌≡◌, refl, sym, ◌∙◌, false, Option, some, [], ◌∷◌, ◌++◌, arith, ◌==◌, if◌then◌else◌,
  Bool-cases, inl, inr,
}
use cmpsc_473_operating_syst.Heap.{Ptr, null, Heap, node, write}
use cmpsc_473_operating_syst.Heap.Access.{
  Linked-write, Linked-Ends, relink_first, load-ok, set_next-ok, set_prev-ok,
}
use cmpsc_473_operating_syst.Heap.Linked.{
  Cells, first, last, has, Linked, Disjoint, SameOutside, eq-false_of_has, Linked-append,
  Linked-split, Disjoint-sym, frame, has-append, last-append,
}
use cmpsc_473_operating_syst.Heap.Returns.{Returns, returns, Returns-bind}
use cmpsc_473_operating_syst.Heap.Splice.{set_next_if-last, set_prev_if-first}
use cmpsc_473_operating_syst.LinkedList.{
  CompareFn, ListT, insert_at_head, append_at_tail, insert_before,
}

-- The new node `p` stands between `ys` and `zs`, and nothing but it and the nodes of `ys` and `zs`
-- has changed.
pub record Spliced {A : Type 0} (h : Heap A) (l : ListT A) (p : Ptr) (d : A) (ys zs : Cells A)
    (l' : ListT A) (g : Heap A) : Type 0 where
  pub chain : Linked g null (ys ++ (p, d) ∷ zs) null
  pub head_is : l'.head ≡ first (ys ++ (p, d) ∷ zs) null
  pub tail_is : l'.tail ≡ last p zs
  pub count_is : l'.count ≡ l.count
  pub compare_is : l'.compare ≡ l.compare
  pub same : (a : Ptr) → (a == p) ≡ false → has a ys ≡ false → has a zs ≡ false → g a ≡ h a

tail_of_head :
    {A : Type 0} (h : Heap A) (p : Ptr) (zs : Cells A)
    → Linked h null zs null
    → (if first zs null == null then p else last null zs) ≡ last p zs
tail_of_head h p [] s = refl
tail_of_head h p ((q, e) ∷ zs) s = rw (s.0)

head_of_front :
    {A : Type 0} (h : Heap A) (p : Ptr) (ys xs xs' : Cells A) (stop : Ptr)
    → Linked h null ys stop
    → first xs' null ≡ p
    → (if last null ys == null then p else first (ys ++ xs) null) ≡ first (ys ++ xs') null
head_of_front h p [] xs xs' stop s e = sym e
head_of_front h p ((q, d) ∷ ys) xs xs' stop s e = rw (Linked-Ends h null q d ys stop s).ne

-- The list structure that stands for the cells `xs`.
abbrev pub list_of : {A : Type 0} → Cells A → ℕ → Option (CompareFn A) → ListT A
list_of xs count compare = record {
  head = first xs null;
  tail = last null xs;
  count = count;
  compare = compare;
}

module _ {A : Type 0} (h : Heap A) (p : Ptr) (d : A) (ne : (p == null) ≡ false)
    (at : h p ≡ some (node null null d)) (count : ℕ) (compare : Option (CompareFn A)) where
  pub insert_at_head-Spliced :
      (zs : Cells A)
      → Linked h null zs null
      → has p zs ≡ false
      → let l = list_of zs count compare in Returns (Spliced h l p d [] zs) (insert_at_head p l h)
  unfolding insert_at_head
  insert_at_head-Spliced zs s out =
      let h1 = write h p (some (node (first zs null) null d)) in
      let s1 = Linked-write h null zs null p (node (first zs null) null d) s out in
      rw (set_next-ok h p _ ne at (first zs null)) (
        Returns-bind (set_prev_if-first h1 null p zs s1) λ _ g (s', same). returns (record {
          chain = (ne, ground (arith, same p), out, s');
          head_is = refl;
          tail_is = tail_of_head h p zs s;
          count_is = refl;
          compare_is = refl;
          same = λ a n _ o. ground (arith, same a);
        }))

  apart_new : (ys : Cells A) → has p ys ≡ false → Disjoint ys ((p, d) ∷ [])
  apart_new ys out a i = ground (arith, eq-false_of_has p a ys i out)

  pub append_at_tail-Spliced :
      (q : Ptr) (e : A) (ys : Cells A)
      → Linked h null ((q, e) ∷ ys) null
      → has p ((q, e) ∷ ys) ≡ false
      → let l = list_of ((q, e) ∷ ys) count compare in
        Returns (Spliced h l p d ((q, e) ∷ ys) []) (append_at_tail p l h)
  unfolding append_at_tail
  append_at_tail-Spliced q e ys s out =
      let h1 = write h p (some (node null (last q ys) d)) in
      let s1 = Linked-write h null ((q, e) ∷ ys) null p (node null (last q ys) d) s out in
      let end = Linked-Ends h1 null q e ys null s1 in
      let away = eq-false_of_has p (last q ys) ((q, e) ∷ ys) end.inside out in
      rw (set_prev-ok h p _ ne at (last q ys), set_next-ok h1 (last q ys) _ end.ne end.at p)
        (returns (record {
          chain =
              Linked-append _ null ((q, e) ∷ ys) ((p, d) ∷ []) null (end.relink_last p)
                (ne, rw away (ground arith), refl, tt) (apart_new ((q, e) ∷ ys) out);
          head_is = refl;
          tail_is = refl;
          count_is = refl;
          compare_is = refl;
          same = λ a n o _. rw (eq-false_of_has a (last q ys) ((q, e) ∷ ys) end.inside o, n);
        }))

  module _ (ys : Cells A) (q : Ptr) (e : A) (zs : Cells A)
      (s : Linked h null (ys ++ (q, e) ∷ zs) null) (out : has p (ys ++ (q, e) ∷ zs) ≡ false) where
    parts :
        Linked h null ys q × Linked h (last null ys) ((q, e) ∷ zs) null × Disjoint ys ((q, e) ∷ zs)
    parts = Linked-split h null ys ((q, e) ∷ zs) null s

    outs : (has p ys ≡ false) × ((p == q) ≡ false) × (has p zs ≡ false)
    outs = let o = rw has-append at out in ground (arith, o)

    q_out : has q ys ≡ false
    q_out = elim (Bool-cases (has q ys)) [
      | inl i ↦ let o = parts.2 q i in ground (arith, o)
      | inr o ↦ o
    ]

    q_new : (q == p) ≡ false
    q_new = ground (arith, outs)

    h1 : Heap A
    h1 = write h p (some (node q null d))

    h2 : Heap A
    unfolding h1
    h2 = write h1 p (some (node q (last null ys) d))

    h2_p : h2 p ≡ some (node q (last null ys) d)
    unfolding h2
    h2_p = ground arith

    h2_else : (a : Ptr) → (a == p) ≡ false → h2 a ≡ h a
    unfolding h2
    h2_else a n = rw n

    h2_front : Linked h2 null ys q
    h2_front =
        frame null ys q parts.0
          λ a i. h2_else a (let o = eq-false_of_has p a ys i outs.0 in ground arith)

    h2_rest : Linked h2 (last null ys) ((q, e) ∷ zs) null
    h2_rest = frame (last null ys) ((q, e) ∷ zs) null parts.1 λ a i.
        h2_else a
          (let o = eq-false_of_has p a ((q, e) ∷ zs) i (ground (arith, outs)) in ground arith)

    module _ (g : Heap A) (l : Linked g null ys p) (same : SameOutside ys h2 g) where
      g_rest : Linked g (last null ys) ((q, e) ∷ zs) null
      g_rest =
          frame (last null ys) ((q, e) ∷ zs) null h2_rest
            λ a i. same a (Disjoint-sym ys ((q, e) ∷ zs) parts.2 a i)

      relinked :
          let f = write g q (some (node (first zs null) p e)) in
          Linked f null (ys ++ (p, d) ∷ (q, e) ∷ zs) null
      relinked =
          Linked-append _ null ys ((p, d) ∷ (q, e) ∷ zs) null
            (Linked-write g null ys p q (node (first zs null) p e) l q_out)
            (
              ne,
              rw (outs.1) (same p outs.0 ∙ h2_p),
              ground (arith, outs),
              relink_first g (last null ys) p q e zs null g_rest,
            )
            λ a i. ground (arith, eq-false_of_has p a ys i outs.0, parts.2 a i)

    pub insert_before-Spliced :
        let l = list_of (ys ++ (q, e) ∷ zs) count compare in
        Returns (Spliced h l p d ys ((q, e) ∷ zs)) (insert_before q p l h)
    unfolding insert_before h1 h2
    insert_before-Spliced =
        rw
          (
            set_next-ok h p _ ne at q,
            load-ok h1 q (node (first zs null) (last null ys) e) parts.1.0 (rw q_new parts.1.1),
            set_prev-ok h1 p (node q null d) ne (ground arith) (last null ys),
          )
          (Returns-bind (set_next_if-last h2 ys q p h2_front) λ _ g (l, same).
            rw (set_prev-ok g q _ parts.1.0 (g_rest g l same).1 p) (
              returns (record {
                chain = relinked g l same;
                head_is = head_of_front h p ys ((q, e) ∷ zs) ((p, d) ∷ (q, e) ∷ zs) q parts.0 refl;
                tail_is = last-append null ys ((q, e) ∷ zs);
                count_is = refl;
                compare_is = refl;
                same = λ a n o o'.
                    let apart : (a == q) ≡ false = ground arith in
                    rw apart (same a o ∙ h2_else a n);
              })))
