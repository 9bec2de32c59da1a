-- ===== src/SplayTree/Entries.antt =====
-- What a splay tree holds, in order, and that splaying does not change it.
use mathlib.Core.List.{append_assoc}
use cmpsc_473_operating_syst.Common.{
  ℕ, ◌≡◌, refl, sym, ap, ◌∙◌, List, [], ◌∷◌, ◌++◌, inl, inr, ltb, ◌==◌, Bool-cases,
}
use cmpsc_473_operating_syst.SplayTree.{
  Tree, leaf, branch, Frame, left_of, right_of, plug, left_rotate, right_rotate, splay, find_place,
  bump,
}

module _ {A : Type 0} where
  -- The keys and records from left to right.
  abbrev pub entries : Tree A → List (ℕ × A)
  entries leaf = []
  entries (branch l k d r) = entries l ++ (k, d) ∷ entries r

  -- The entries to the left and to the right of a node with this path.
  abbrev pub left_part : List (Frame A) → List (ℕ × A)
  left_part [] = []
  left_part (left_of k d r ∷ path) = left_part path
  left_part (right_of l k d ∷ path) = left_part path ++ entries l ++ (k, d) ∷ []

  abbrev pub right_part : List (Frame A) → List (ℕ × A)
  right_part [] = []
  right_part (left_of k d r ∷ path) = (k, d) ∷ entries r ++ right_part path
  right_part (right_of l k d ∷ path) = right_part path

  pub append_nil : (xs : List (ℕ × A)) → xs ++ [] ≡ xs
  append_nil [] = refl
  append_nil (x ∷ xs) = ap (◌∷◌ x) (append_nil xs)

  -- Splaying a node to the root keeps every entry, in order.
  pub splay-entries :
      (l : Tree A) (k : ℕ) (d : A) (r : Tree A) (path : List (Frame A))
      → entries (splay (branch l k d r) path)
        ≡ left_part path ++ entries (branch l k d r) ++ right_part path
  unfolding splay plug left_rotate right_rotate
  splay-entries l k d r [] = simp (append_nil)
  splay-entries l k d r (left_of k1 d1 r1 ∷ []) = simp (append_nil, append_assoc)
  splay-entries l k d r (right_of l1 k1 d1 ∷ []) = simp (append_nil, append_assoc)
  splay-entries l k d r (left_of k1 d1 r1 ∷ left_of k2 d2 r2 ∷ path) =
      simp (append_assoc, splay-entries l k d (branch r k1 d1 (branch r1 k2 d2 r2)) path)
  splay-entries l k d r (right_of l1 k1 d1 ∷ right_of l2 k2 d2 ∷ path) =
      simp (append_assoc, splay-entries (branch (branch l2 k2 d2 l1) k1 d1 l) k d r path)
  splay-entries l k d r (left_of k1 d1 r1 ∷ right_of l2 k2 d2 ∷ path) =
      simp (append_assoc, splay-entries (branch l2 k2 d2 l) k d (branch r k1 d1 r1) path)
  splay-entries l k d r (right_of l1 k1 d1 ∷ left_of k2 d2 r2 ∷ path) =
      simp (append_assoc, splay-entries (branch l1 k1 d1 l) k d (branch r k2 d2 r2) path)

  -- The loop of the search puts the subtree where it ends on the path that it came down.
  pub find_place-entries :
      (key : ℕ) (t : Tree A) (path : List (Frame A)) (count : ℕ)
      → let (t', path', count') = find_place key t path count in
        left_part path' ++ entries t' ++ right_part path'
        ≡ left_part path ++ entries t ++ right_part path
  unfolding find_place
  find_place-entries key leaf path count = refl
  find_place-entries key (branch l k d r) path count = elim (Bool-cases (key == k)) [
    | inl hit ↦ rw hit refl
    | inr miss ↦ rw miss (elim (Bool-cases (ltb k key)) [
      | inl more ↦ rw more (
          find_place-entries key r (right_of l k d ∷ path) (bump (bump count))
          ∙ simp (append_assoc))
      | inr less ↦ rw less (
          find_place-entries key l (left_of k d r ∷ path) (bump (bump count)) ∙ simp (append_assoc))
    ])
  ]

  -- The splayed node is the root; its left subtree holds what stood to the left of it, and its right
  -- subtree what stood to the right.
  pub splay-root :
      (l : Tree A) (k : ℕ) (d : A) (r : Tree A) (path : List (Frame A))
      → (l' : Tree A) × (r' : Tree A) × (splay (branch l k d r) path ≡ branch l' k d r')
        × (entries l' ≡ left_part path ++ entries l)
        × (entries r' ≡ entries r ++ right_part path)
  unfolding splay plug left_rotate right_rotate
  splay-root l k d r [] = (l, r, refl, refl, sym (append_nil (entries r)))
  splay-root l k d r (left_of k1 d1 r1 ∷ []) = (l, branch r k1 d1 r1, refl, refl, simp (append_nil))
  splay-root l k d r (right_of l1 k1 d1 ∷ []) =
      (branch l1 k1 d1 l, r, refl, simp (append_assoc), sym (append_nil (entries r)))
  splay-root l k d r (left_of k1 d1 r1 ∷ left_of k2 d2 r2 ∷ path) =
      let (l', r', e, f, g) = splay-root l k d (branch r k1 d1 (branch r1 k2 d2 r2)) path in
      (l', r', e, f, g ∙ simp (append_assoc))
  splay-root l k d r (right_of l1 k1 d1 ∷ right_of l2 k2 d2 ∷ path) =
      let (l', r', e, f, g) = splay-root (branch (branch l2 k2 d2 l1) k1 d1 l) k d r path in
      (l', r', e, f ∙ simp (append_assoc), g)
  splay-root l k d r (left_of k1 d1 r1 ∷ right_of l2 k2 d2 ∷ path) =
      let (l', r', e, f, g) = splay-root (branch l2 k2 d2 l) k d (branch r k1 d1 r1) path in
      (l', r', e, f ∙ simp (append_assoc), g ∙ simp (append_assoc))
  splay-root l k d r (right_of l1 k1 d1 ∷ left_of k2 d2 r2 ∷ path) =
      let (l', r', e, f, g) = splay-root (branch l1 k1 d1 l) k d (branch r k2 d2 r2) path in
      (l', r', e, f ∙ simp (append_assoc), g ∙ simp (append_assoc))
