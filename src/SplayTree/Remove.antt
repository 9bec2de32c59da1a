-- ===== src/SplayTree/Remove.antt =====
-- `tree_remove` on a search tree.
use mathlib.Core.List.{append_assoc}
use mathlib.Core.Path.{subst}
use cmpsc_473_operating_syst.Common.{
  ℕ, ◌+◌, ◌-◌, ◌%◌, ◌^◌, ◌<◌, ◌≡◌, refl, sym, ap, ◌∙◌, ◌⊎◌, inl, inr, Option, none, some, List, [],
  ◌∷◌, ◌++◌, arith, ltb, ◌==◌, if◌then◌else◌, Bool-cases,
}
use cmpsc_473_operating_syst.SplayTree.{
  Tree, leaf, branch, TreeT, Frame, left_of, right_of, find_place, bump, seek, take_minimum,
  remove_root, remove_at, tree_remove,
}
use cmpsc_473_operating_syst.SplayTree.Entries.{
  entries, left_part, right_part, splay-root, find_place-entries, append_nil,
}
use cmpsc_473_operating_syst.SplayTree.Search.{
  All, Sorted, Sorted-middle, lookup, lookup-below, lookup-above, lookup-middle, Placed,
  find_place-Placed,
}

module _ {A : Type 0} where
  take_minimum-entries :
      (l : Tree A) (k : ℕ) (d : A) (r : Tree A)
      → let (k0, d0, rest) = take_minimum l k d r in
        (k0, d0) ∷ entries rest ≡ entries (branch l k d r)
  unfolding take_minimum
  take_minimum-entries leaf k d r = refl
  take_minimum-entries (branch l k' d' r') k d r =
      ap (λ xs. xs ++ (k, d) ∷ entries r) (take_minimum-entries l k' d' r')

  -- Taking out the root leaves the other entries in order.
  remove_root-entries :
      (l : Tree A) (k : ℕ) (d : A) (r : Tree A)
      → entries (remove_root (branch l k d r)) ≡ entries l ++ entries r
  unfolding remove_root
  remove_root-entries leaf k d r = refl
  remove_root-entries (branch l k' d' r') k d leaf = sym (append_nil _)
  remove_root-entries (branch l k' d' r') k d (branch l2 k2 d2 r2) =
      ap (λ xs. entries (branch l k' d' r') ++ xs) (take_minimum-entries l2 k2 d2 r2)

  -- The entries without that of a key.
  abbrev pub remove_entry : ℕ → List (ℕ × A) → List (ℕ × A)
  remove_entry key [] = []
  remove_entry key ((k, d) ∷ xs) = if key == k then xs else (k, d) ∷ remove_entry key xs

  remove_entry-middle :
      (key : ℕ) (d : A) (xs ys : List (ℕ × A))
      → All (λ j. j < key) xs
      → remove_entry key (xs ++ (key, d) ∷ ys) ≡ xs ++ ys
  remove_entry-middle key d [] ys a = ground arith
  remove_entry-middle key d ((k, e) ∷ xs) ys (h, a) =
      ground (arith, remove_entry-middle key d xs ys a)

  -- `tree_remove` looks where `tree_insert` does.
  seek-find_place :
      (key : ℕ) (t : Tree A) (path : List (Frame A)) (c c' : ℕ)
      → ((seek key t path c).0 ≡ (find_place key t path c').0)
        × ((seek key t path c).1 ≡ (find_place key t path c').1)
  unfolding seek find_place
  seek-find_place key leaf path c c' = (refl, refl)
  seek-find_place key (branch l k d r) path c c' = elim (Bool-cases (key == k)) [
    | inl hit ↦ rw hit (refl, refl)
    | inr miss ↦ elim (Bool-cases (ltb k key)) [
      | inl more ↦
          rw (miss, more) (seek-find_place key r (right_of l k d ∷ path) (bump c) (bump (bump c')))
      | inr less ↦
          rw (miss, less) (seek-find_place key l (left_of k d r ∷ path) (bump c) (bump (bump c')))
    ]
  ]

  -- What `tree_remove` may do: find no such key and leave the tree as it is, or hand back the record
  -- and leave the other entries, counted.
  abbrev pub Removed : TreeT A → ℕ → Option A × TreeT A → Type 0
  Removed tree key (found, tree') =
      (found ≡ lookup key (entries tree.root))
      × (((found ≡ none) × (tree'.root ≡ tree.root) × (tree'.node_count ≡ tree.node_count))
          ⊎ (((e : A) × (found ≡ some e))
              × (entries tree'.root ≡ remove_entry key (entries tree.root))
              × (tree'.node_count ≡ (tree.node_count + 2 ^ 64 - 1) % 2 ^ 64)))

  remove_at-Removed :
      (tree : TreeT A) (key : ℕ) (t : Tree A × List (Frame A) × ℕ)
      → Placed key t
      → left_part t.1 ++ entries t.0 ++ right_part t.1 ≡ entries tree.root
      → Sorted (entries tree.root)
      → Removed tree key (remove_at tree t)
  unfolding remove_at
  remove_at-Removed tree key (leaf, path, count) (below, above, fits) all s = (
    rw (sym all, append_nil (left_part path))
        (sym (
          lookup-below key (left_part path) (right_part path) below
          ∙ lookup-above key (right_part path) above)),
    inl (refl, refl, refl),
  )
  remove_at-Removed tree key (branch l k d r, path, count) (below, above, fits) all s =
      let (l', r', root, el, er) = splay-root l k d r path in
      let shape : entries tree.root
          ≡ (left_part path ++ entries l) ++ (key, d) ∷ (entries r ++ right_part path) =
        sym all ∙ rw fits (simp (append_assoc)) in
      let (under, over, sl, sr) =
        Sorted-middle (left_part path ++ entries l) key d (entries r ++ right_part path)
          (subst Sorted shape s) in
      (
        rw shape (
            sym (
              lookup-middle key d (left_part path ++ entries l) (entries r ++ right_part path)
                under)),
        inr (
          (d, refl),
          rw (root, remove_root-entries l' k d r', el, er, shape)
              (sym (
                remove_entry-middle key d (left_part path ++ entries l)
                  (entries r ++ right_part path) under)),
          refl,
        ),
      )

  -- Removing from a search tree hands back the record of the key, or NULL if there is none. In the
  -- first case the tree is left with the other entries, in order, and one node less; in the second
  -- it is left as it was.
  pub tree_remove-Removed :
      (tree : TreeT A) (key : ℕ)
      → Sorted (entries tree.root)
      → Removed tree key (tree_remove tree key)
  unfolding tree_remove
  tree_remove-Removed tree key s =
      let c = tree.comparison_count in
      let (same, same') = seek-find_place key tree.root [] c c in
      remove_at-Removed tree key (seek key tree.root [] c)
        (rw (same, same') (find_place-Placed key tree.root [] c s tt tt))
        (rw (same, same') (find_place-entries key tree.root [] c ∙ append_nil (entries tree.root)))
        s
