-- ===== src/SplayTree/Search.antt =====
-- Splay trees as search trees: what the operations do to the sorted entries.
use mathlib.Core.List.{append_assoc}
use mathlib.Core.Path.{subst}
use cmpsc_473_operating_syst.Common.{
  ℕ, ◌<◌, ◌≡◌, refl, sym, ◌∙◌, ◌⊎◌, inl, inr, Bool, true, false, Option, none, some, List, [], ◌∷◌,
  ◌++◌, arith, ltb, ◌==◌, ==_iff, if◌then◌else◌, Bool-cases,
}
use cmpsc_473_operating_syst.SplayTree.{
  Tree, leaf, branch, TreeT, Frame, left_of, right_of, find_place, bump, insert_at, tree_insert,
  find_in,
}
use cmpsc_473_operating_syst.SplayTree.Entries.{
  entries, left_part, right_part, splay-entries, find_place-entries, append_nil,
}

module _ {A : Type 0} where
  abbrev pub All : (ℕ → Type 0) → List (ℕ × A) → Type 0
  All P [] = Unit {0}
  All P ((k, d) ∷ xs) = P k × All P xs

  abbrev pub Sorted : List (ℕ × A) → Type 0
  Sorted [] = Unit {0}
  Sorted ((k, d) ∷ xs) = All (λ j. k < j) xs × Sorted xs

  -- The record of a key, in a list of entries.
  abbrev pub lookup : ℕ → List (ℕ × A) → Option A
  lookup key [] = none
  lookup key ((k, d) ∷ xs) = if key == k then some d else lookup key xs

  -- A new entry in its place.
  abbrev pub insert_entry : ℕ → A → List (ℕ × A) → List (ℕ × A)
  insert_entry key d [] = (key, d) ∷ []
  insert_entry key d ((k, e) ∷ xs) =
      if ltb k key then (k, e) ∷ insert_entry key d xs else (key, d) ∷ (k, e) ∷ xs

  All-append : (P : ℕ → Type 0) (xs ys : List (ℕ × A)) → All P xs → All P ys → All P (xs ++ ys)
  All-append P [] ys a b = b
  All-append P ((k, d) ∷ xs) ys (h, a) b = (h, All-append P xs ys a b)

  All-mono : (P Q : ℕ → Type 0) (xs : List (ℕ × A)) → ((k : ℕ) → P k → Q k) → All P xs → All Q xs
  All-mono P Q [] f a = tt
  All-mono P Q ((k, d) ∷ xs) f (h, a) = (f k h, All-mono P Q xs f a)

  -- The parts of sorted entries around the root of a tree.
  pub Sorted-middle :
      (xs : List (ℕ × A)) (k : ℕ) (d : A) (ys : List (ℕ × A))
      → Sorted (xs ++ (k, d) ∷ ys)
      → All (λ j. j < k) xs × All (λ j. k < j) ys × Sorted xs × Sorted ys
  Sorted-middle [] k d ys (h, s) = (tt, h, tt, s)
  Sorted-middle ((j, e) ∷ xs) k d ys (h, s) =
      let (below, above, sx, sy) = Sorted-middle xs k d ys s in
      let (less, all) = split xs h in ((less, below), above, (all, sx), sy)
    where
      split :
          (xs : List (ℕ × A)) → All (λ i. j < i) (xs ++ (k, d) ∷ ys) → (j < k) × All (λ i. j < i) xs
      split [] (h, a) = (h, tt)
      split ((i, e') ∷ xs) (h, a) = let (l, b) = split xs a in (l, (h, b))

  pub lookup-below :
      (key : ℕ) (xs ys : List (ℕ × A))
      → All (λ j. j < key) xs
      → lookup key (xs ++ ys) ≡ lookup key ys
  lookup-below key [] ys a = refl
  lookup-below key ((k, d) ∷ xs) ys (h, a) = ground (arith, lookup-below key xs ys a)

  pub lookup-above : (key : ℕ) (xs : List (ℕ × A)) → All (λ j. key < j) xs → lookup key xs ≡ none
  lookup-above key [] a = refl
  lookup-above key ((k, d) ∷ xs) (h, a) = ground (arith, lookup-above key xs a)

  pub lookup-middle :
      (key : ℕ) (d : A) (xs ys : List (ℕ × A))
      → All (λ j. j < key) xs
      → lookup key (xs ++ (key, d) ∷ ys) ≡ some d
  lookup-middle key d xs ys a = lookup-below key xs ((key, d) ∷ ys) a ∙ ground arith

  lookup-first :
      (key : ℕ) (xs ys : List (ℕ × A))
      → All (λ j. key < j) ys
      → lookup key (xs ++ ys) ≡ lookup key xs
  lookup-first key [] ys a = lookup-above key ys a
  lookup-first key ((k, d) ∷ xs) ys a = ground (arith, lookup-first key xs ys a)

  insert_entry-middle :
      (key : ℕ) (d : A) (xs ys : List (ℕ × A))
      → All (λ j. j < key) xs
      → All (λ j. key < j) ys
      → insert_entry key d (xs ++ ys) ≡ xs ++ (key, d) ∷ ys
  insert_entry-middle key d [] [] a b = refl
  insert_entry-middle key d [] ((k, e) ∷ ys) a (h, b) = ground arith
  insert_entry-middle key d ((k, e) ∷ xs) ys (h, a) b =
      ground (arith, insert_entry-middle key d xs ys a b)

  -- On a search tree, `tree_find` returns the record of the key, or NULL if there is none.
  pub find_in-lookup :
      (key : ℕ) (t : Tree A) (count : ℕ)
      → Sorted (entries t)
      → (find_in key t count).0 ≡ lookup key (entries t)
  unfolding find_in
  find_in-lookup key leaf count s = refl
  find_in-lookup key (branch l k d r) count s =
      let (below, above, sl, sr) = Sorted-middle (entries l) k d (entries r) s in
      elim (Bool-cases (key == k)) [
        | inl hit ↦
            let same : key ≡ k = (==_iff key k).0 hit in
            rw (hit, lookup-below key (entries l) ((k, d) ∷ entries r) (rw same below), hit) refl
        | inr miss ↦ elim (Bool-cases (ltb k key)) [
          | inl more ↦
              rw
                (
                  miss,
                  more,
                  lookup-below key (entries l) ((k, d) ∷ entries r)
                      (All-mono _ _ (entries l) (λ j h. ground arith) below),
                  miss,
                )
                (find_in-lookup key r (bump (bump count)) sr)
          | inr less ↦
              rw
                (
                  miss,
                  less,
                  lookup-first key (entries l) ((k, d) ∷ entries r)
                      (ground arith, All-mono _ _ (entries r) (λ j h. ground arith) above),
                )
                (find_in-lookup key l (bump (bump count)) sl)
        ]
      ]

  -- A free place, or a node with the key.
  abbrev pub Fits : ℕ → Tree A → Type 0
  Fits key leaf = Unit {0}
  Fits key (branch l k d r) = key ≡ k

  -- What the search for a place leaves: smaller keys to the left, greater ones to the right, and a
  -- free place, or a node with the key.
  abbrev pub Placed : ℕ → Tree A × List (Frame A) × ℕ → Type 0
  Placed key (t, path, count) =
      All (λ j. j < key) (left_part path) × All (λ j. key < j) (right_part path) × Fits key t

  pub find_place-Placed :
      (key : ℕ) (t : Tree A) (path : List (Frame A)) (count : ℕ)
      → Sorted (entries t)
      → All (λ j. j < key) (left_part path)
      → All (λ j. key < j) (right_part path)
      → Placed key (find_place key t path count)
  unfolding find_place
  find_place-Placed key leaf path count s a b = (a, b, tt)
  find_place-Placed key (branch l k d r) path count s a b =
      let (below, above, sl, sr) = Sorted-middle (entries l) k d (entries r) s in
      elim (Bool-cases (key == k)) [
        | inl hit ↦ rw hit (a, b, (==_iff key k).0 hit)
        | inr miss ↦ elim (Bool-cases (ltb k key)) [
          | inl more ↦
              rw (miss, more)
                (find_place-Placed key r (right_of l k d ∷ path) (bump (bump count)) sr
                  (All-append _ (left_part path ++ entries l) ((k, d) ∷ [])
                    (All-append _ (left_part path) (entries l) a
                      (All-mono _ _ (entries l) (λ j h. ground arith) below))
                    (ground arith, tt))
                  b)
          | inr less ↦
              rw (miss, less)
                (find_place-Placed key l (left_of k d r ∷ path) (bump (bump count)) sl a (
                  ground arith,
                  All-append _ (entries r) (right_part path)
                      (All-mono _ _ (entries r) (λ j h. ground arith) above) b,
                ))
        ]
      ]

  -- What `tree_insert` may do: find an entry of the key there and change nothing but the count of comparisons, or
  -- put the new entry in its place and count it.
  abbrev pub Inserted : TreeT A → ℕ → A → Bool × TreeT A → Type 0
  Inserted tree key d (done, tree') =
      ((done ≡ true)
        × (lookup key (entries tree.root) ≡ none)
        × (entries tree'.root ≡ insert_entry key d (entries tree.root))
        × (tree'.node_count ≡ bump tree.node_count))
      ⊎ ((done ≡ false)
          × ((e : A) × (lookup key (entries tree.root) ≡ some e))
          × (tree'.root ≡ tree.root)
          × (tree'.node_count ≡ tree.node_count))

  insert_at-Inserted :
      (tree : TreeT A) (key : ℕ) (d : A) (t : Tree A × List (Frame A) × ℕ)
      → Placed key t
      → left_part t.1 ++ entries t.0 ++ right_part t.1 ≡ entries tree.root
      → Sorted (entries tree.root)
      → Inserted tree key d (insert_at key d tree t)
  unfolding insert_at
  insert_at-Inserted tree key d (branch l k e r, path, count) (below, above, fits) all s =
      inr (refl, (e, there), refl, refl)
    where
      there : lookup key (entries tree.root) ≡ some e
      there =
          let shape : entries tree.root
              ≡ (left_part path ++ entries l) ++ (key, e) ∷ (entries r ++ right_part path) =
            sym all ∙ rw fits (simp (append_assoc)) in
          let (under, over, sl, sr) =
            Sorted-middle (left_part path ++ entries l) key e (entries r ++ right_part path)
              (subst Sorted shape s) in
          rw shape
            (lookup-middle key e (left_part path ++ entries l) (entries r ++ right_part path) under)
  insert_at-Inserted tree key d (leaf, path, count) (below, above, fits) all s = inl (
    refl,
    rw (sym all, append_nil (left_part path))
        (lookup-below key (left_part path) (right_part path) below
          ∙ lookup-above key (right_part path) above),
    splay-entries leaf key d leaf path
        ∙ rw
            (
              sym all,
              append_nil (left_part path),
              append_assoc (left_part path) ((key, d) ∷ []) (right_part path),
            )
            (sym (insert_entry-middle key d (left_part path) (right_part path) below above)),
    refl,
  )

  -- Inserting into a search tree: if the key is not there, the answer is true and the tree holds the
  -- new entry in its place among the others; otherwise the answer is false and the tree is as it was.
  pub tree_insert-Inserted :
      (tree : TreeT A) (key : ℕ) (d : A)
      → Sorted (entries tree.root)
      → Inserted tree key d (tree_insert tree key d)
  unfolding tree_insert
  tree_insert-Inserted tree key d s =
      insert_at-Inserted tree key d (find_place key tree.root [] tree.comparison_count)
        (find_place-Placed key tree.root [] tree.comparison_count s tt tt)
        (find_place-entries key tree.root [] tree.comparison_count ∙ append_nil (entries tree.root))
        s
