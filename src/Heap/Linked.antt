-- ===== src/Heap/Linked.antt =====
-- Doubly linked stretches of nodes, and what a write does to them.
use cmpsc_473_operating_syst.Common.{
  ◌≡◌, refl, Bool, true, false, ◌||◌, none, some, List, [], ◌∷◌, ◌++◌, arith, ◌==◌, Bool-cases,
  ==_iff, inl, inr,
}
use cmpsc_473_operating_syst.Heap.{Ptr, null, Heap, node}

-- What a list stands for: the address and the value of each node, in order.
abbrev pub Cells : Type 0 → Type 0
Cells A = List (Ptr × A)

module _ {A : Type 0} where
  abbrev pub first : Cells A → Ptr → Ptr
  first [] stop = stop
  first ((p, d) ∷ xs) stop = p

  abbrev pub last : Ptr → Cells A → Ptr
  last before [] = before
  last before ((p, d) ∷ xs) = last p xs

  abbrev pub has : Ptr → Cells A → Bool
  has a [] = false
  has a ((p, d) ∷ xs) = (a == p) || has a xs

  -- The nodes of `xs` stand in `h`, at distinct addresses other than NULL; each points to its
  -- neighbours, the first one back to `before` and the last one on to `stop`.
  abbrev pub Linked : Heap A → Ptr → Cells A → Ptr → Type 0
  Linked h before [] stop = Unit {0}
  Linked h before ((p, d) ∷ xs) stop =
      ((p == null) ≡ false)
      × (h p ≡ some (node (first xs stop) before d))
      × (has p xs ≡ false)
      × Linked h p xs stop

  abbrev pub Disjoint : Cells A → Cells A → Type 0
  Disjoint xs ys = (a : Ptr) → has a xs ≡ true → has a ys ≡ false

  -- `g` differs from `h` at most at the addresses of `xs`.
  abbrev pub SameOutside : Cells A → Heap A → Heap A → Type 0
  SameOutside xs h g = (a : Ptr) → has a xs ≡ false → g a ≡ h a

  pub has-append : (a : Ptr) (xs ys : Cells A) → has a (xs ++ ys) ≡ (has a xs || has a ys)
  has-append a [] ys = refl
  has-append a (x ∷ xs) ys = ground (arith, has-append a xs ys)

  pub eq-false_of_has :
      (p a : Ptr) (xs : Cells A) → has a xs ≡ true → has p xs ≡ false → (p == a) ≡ false
  eq-false_of_has p a xs i o = elim (Bool-cases (p == a)) [
    | inl e ↦ let same : p ≡ a = (==_iff p a).0 e in let i' : has p xs ≡ true = rw same i in cc
    | inr e ↦ e
  ]

  pub Disjoint-sym : (xs ys : Cells A) → Disjoint xs ys → Disjoint ys xs
  Disjoint-sym xs ys apart a i = elim (Bool-cases (has a xs)) [
    | inl j ↦ let o = apart a j in cc
    | inr o ↦ o
  ]

  pub first-append :
      (xs ys : Cells A) (stop : Ptr) → first (xs ++ ys) stop ≡ first xs (first ys stop)
  first-append [] ys stop = refl
  first-append (x ∷ xs) ys stop = refl

  pub last-append :
      (before : Ptr) (xs ys : Cells A) → last before (xs ++ ys) ≡ last (last before xs) ys
  last-append before [] ys = refl
  last-append before (x ∷ xs) ys = last-append x.0 xs ys

  pub frame :
      {h g : Heap A} (before : Ptr) (xs : Cells A) (stop : Ptr)
      → Linked h before xs stop
      → ((a : Ptr) → has a xs ≡ true → g a ≡ h a)
      → Linked g before xs stop
  frame before [] stop s same = tt
  frame before ((p, d) ∷ xs) stop (ne, at, out, s) same =
      (ne, ground (arith, same p), out, frame p xs stop s λ a i. same a (ground arith))

  pub Linked-append :
      (h : Heap A) (before : Ptr) (xs ys : Cells A) (stop : Ptr)
      → Linked h before xs (first ys stop)
      → Linked h (last before xs) ys stop
      → Disjoint xs ys
      → Linked h before (xs ++ ys) stop
  Linked-append h before [] ys stop s t apart = t
  Linked-append h before ((p, d) ∷ xs) ys stop (ne, at, out, s) t apart = (
    ne,
    rw (first-append xs ys stop) at,
    rw (has-append p xs ys, out) (apart p (ground arith)),
    Linked-append h p xs ys stop s t λ a i. apart a (ground arith),
  )

  pub Linked-split :
      (h : Heap A) (before : Ptr) (xs ys : Cells A) (stop : Ptr)
      → Linked h before (xs ++ ys) stop
      → Linked h before xs (first ys stop) × Linked h (last before xs) ys stop × Disjoint xs ys
  Linked-split h before [] ys stop s = (tt, s, λ a i. cc)
  Linked-split h before ((p, d) ∷ xs) ys stop (ne, at, out, s) =
      let (l, r, apart) = Linked-split h p xs ys stop s in
      let o = rw has-append at out in
      (
        (ne, rw (first-append xs ys stop) at at, ground (arith, o), l),
        r,
        λ a i. ground (arith, apart a, o),
      )

  -- An address that holds no node is none of a linked stretch.
  pub not-has_of_none :
      (h : Heap A) (a before : Ptr) (xs : Cells A) (stop : Ptr)
      → Linked h before xs stop
      → h a ≡ none
      → has a xs ≡ false
  not-has_of_none h a before [] stop s unused = refl
  not-has_of_none h a before ((p, d) ∷ xs) stop (ne, at, out, s) unused =
      ground (arith, not-has_of_none h a p xs stop s unused)
