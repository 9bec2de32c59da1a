-- ===== src/SplayTree.antt =====
-- assignment-2-malloclab-FreezeKickerz/stree.h and stree.c: splay trees. A node that the source
-- reaches through pointers is a subtree here, with the path from it up to the root for its `parent`
-- pointers. Keys are only compared, so a `long` stands here for its distance from the least one.
pub mod Entries
pub mod Remove
pub mod Search
mod Tests
use cmpsc_473_operating_syst.Common.{
  ℕ, ◌+◌, ◌-◌, ◌%◌, ◌^◌, Bool, true, false, Option, none, some, List, [], ◌∷◌, ◌++◌, ltb, ◌==◌,
  if◌then◌else◌,
}

-- `node_t` without its `parent`; `leaf` is NULL.
pub data Tree (A : Type 0) : Type 0 where
  leaf : Tree A
  branch : (left : Tree A) (key : ℕ) (entry : A) (right : Tree A) → Tree A

-- `tree_t`
pub record TreeT (A : Type 0) : Type 0 where
  pub root : Tree A
  pub node_count : ℕ
  pub comparison_count : ℕ

-- A parent with its other subtree: the node is its left child, or its right child.
pub data Frame (A : Type 0) : Type 0 where
  left_of : (key : ℕ) (entry : A) (right : Tree A) → Frame A
  right_of : (left : Tree A) (key : ℕ) (entry : A) → Frame A

-- A piece of what `tree_show` prints.
pub data Token : Type 0 where
  opening closing : Token
  shown : ℕ → Token

-- `++` on `size_t`
abbrev pub bump : ℕ → ℕ
bump n = (n + 1) % 2 ^ 64

module _ {A : Type 0} where
  unfoldable pub tree_new : TreeT A
  tree_new = record { root = leaf; node_count = 0; comparison_count = 0 }

  unfoldable pub plug : Frame A → Tree A → Tree A
  plug (left_of key entry right) t = branch t key entry right
  plug (right_of left key entry) t = branch left key entry t

  -- A rotation about a node without the child that should come up leaves NULL in its place.
  unfoldable pub left_rotate : Tree A → Tree A
  left_rotate leaf = leaf
  left_rotate (branch a x d leaf) = leaf
  left_rotate (branch a x d (branch b y e c)) = branch (branch a x d b) y e c

  unfoldable pub right_rotate : Tree A → Tree A
  right_rotate leaf = leaf
  right_rotate (branch leaf x d c) = leaf
  right_rotate (branch (branch a y e b) x d c) = branch a y e (branch b x d c)

  -- The loop of `splay`, on the subtree of a node and its path to the root.
  unfoldable pub splay : Tree A → List (Frame A) → Tree A
  unfolding plug left_rotate right_rotate
  splay x [] = x
  splay x (left_of k d r ∷ []) = right_rotate (plug (left_of k d r) x)
  splay x (right_of l k d ∷ []) = left_rotate (plug (right_of l k d) x)
  splay x (left_of k d r ∷ left_of k' d' r' ∷ path) =
      splay (right_rotate (right_rotate (plug (left_of k' d' r') (plug (left_of k d r) x)))) path
  splay x (right_of l k d ∷ right_of l' k' d' ∷ path) =
      splay (left_rotate (left_rotate (plug (right_of l' k' d') (plug (right_of l k d) x)))) path
  splay x (left_of k d r ∷ right_of l' k' d' ∷ path) =
      splay (left_rotate (plug (right_of l' k' d') (right_rotate (plug (left_of k d r) x)))) path
  splay x (right_of l k d ∷ left_of k' d' r' ∷ path) =
      splay (right_rotate (plug (left_of k' d' r') (left_rotate (plug (right_of l k d) x)))) path

  -- The loop of `tree_insert`: the subtree where it ends, the path to it, and the comparisons.
  unfoldable pub find_place : (key : ℕ) → Tree A → List (Frame A) → ℕ → Tree A × List (Frame A) × ℕ
  find_place key leaf path count = (leaf, path, count)
  find_place key (branch l k d r) path count =
      if key == k
      then (branch l k d r, path, bump count)
      else if ltb k key
      then find_place key r (right_of l k d ∷ path) (bump (bump count))
      else find_place key l (left_of k d r ∷ path) (bump (bump count))

  -- What follows the loop. `malloc` is taken to give the node: the program ends where it does not.
  unfoldable pub insert_at :
      (key : ℕ) (entry : A) → TreeT A → Tree A × List (Frame A) × ℕ → Bool × TreeT A
  unfolding splay
  insert_at key entry tree (branch l k d r, path, count) =
      (false, record tree { comparison_count = count })
  insert_at key entry tree (leaf, path, count) = (
    true,
    record {
      root = splay (branch leaf key entry leaf) path;
      node_count = bump tree.node_count;
      comparison_count = count;
    },
  )

  unfoldable pub tree_insert : TreeT A → ℕ → A → Bool × TreeT A
  unfolding find_place insert_at
  tree_insert tree key entry =
      insert_at key entry tree (find_place key tree.root [] tree.comparison_count)

  -- The loop of `tree_find`.
  unfoldable pub find_in : (key : ℕ) → Tree A → ℕ → Option A × ℕ
  find_in key leaf count = (none, count)
  find_in key (branch l k d r) count =
      if key == k
      then (some d, bump count)
      else if ltb k key
      then find_in key r (bump (bump count))
      else find_in key l (bump (bump count))

  unfoldable pub tree_find : TreeT A → ℕ → Option A × TreeT A
  unfolding find_in
  tree_find tree key =
      let (found, count) = find_in key tree.root tree.comparison_count in
      (found, record tree { comparison_count = count })

  -- `if (!n || n->key < z->key) n = z;`
  unfoldable pub nearer : Option (ℕ × A) → ℕ → A → Option (ℕ × A)
  nearer none k d = some (k, d)
  nearer (some (k', d')) k d = if ltb k' k then some (k, d) else some (k', d')

  -- The loop of `tree_find_nearest`, with its `n`.
  unfoldable pub nearest_in : (key : ℕ) → Tree A → Option (ℕ × A) → ℕ → Option (ℕ × A) × ℕ
  unfolding nearer
  nearest_in key leaf n count = (n, count)
  nearest_in key (branch l k d r) n count =
      if key == k
      then (some (k, d), bump count)
      else if ltb k key
      then nearest_in key r (nearer n k d) (bump (bump count))
      else nearest_in key l n (bump (bump count))

  unfoldable pub entry_of : Option (ℕ × A) → Option A
  entry_of none = none
  entry_of (some (k, d)) = some d

  unfoldable pub tree_find_nearest : TreeT A → ℕ → Option A × TreeT A
  unfolding nearest_in entry_of
  tree_find_nearest tree key =
      let (n, count) = nearest_in key tree.root none tree.comparison_count in
      (entry_of n, record tree { comparison_count = count })

  -- The loop of `tree_remove`, which counts one comparison a step.
  unfoldable pub seek : (key : ℕ) → Tree A → List (Frame A) → ℕ → Tree A × List (Frame A) × ℕ
  seek key leaf path count = (leaf, path, count)
  seek key (branch l k d r) path count =
      if key == k
      then (branch l k d r, path, count)
      else if ltb k key
      then seek key r (right_of l k d ∷ path) (bump count)
      else seek key l (left_of k d r ∷ path) (bump count)

  -- `subtree_minimum` of a node, and the node's subtree with the minimum replaced by its right child.
  unfoldable pub take_minimum : Tree A → ℕ → A → Tree A → ℕ × A × Tree A
  take_minimum leaf k d r = (k, d, r)
  take_minimum (branch l' k' d' r') k d r =
      let (k0, d0, rest) = take_minimum l' k' d' r' in (k0, d0, branch rest k d r)

  -- Takes the root out, which `splay` has brought up.
  unfoldable pub remove_root : Tree A → Tree A
  unfolding take_minimum
  remove_root leaf = leaf
  remove_root (branch leaf k d r) = r
  remove_root (branch (branch l k' d' r') k d leaf) = branch l k' d' r'
  remove_root (branch (branch l k' d' r') k d (branch l2 k2 d2 r2)) =
      let (k0, d0, rest) = take_minimum l2 k2 d2 r2 in branch (branch l k' d' r') k0 d0 rest

  unfoldable pub remove_at : TreeT A → Tree A × List (Frame A) × ℕ → Option A × TreeT A
  unfolding remove_root splay
  remove_at tree (leaf, path, count) = (none, record tree { comparison_count = count })
  remove_at tree (branch l k d r, path, count) = (
    some d,
    record {
      root = remove_root (splay (branch l k d r) path);
      node_count = (tree.node_count + 2 ^ 64 - 1) % 2 ^ 64;
      comparison_count = count;
    },
  )

  unfoldable pub tree_remove : TreeT A → ℕ → Option A × TreeT A
  unfolding seek remove_at
  tree_remove tree key = remove_at tree (seek key tree.root [] tree.comparison_count)

  -- The records handed to `free_fun`, in order.
  unfoldable pub free_subtree : Tree A → List A
  free_subtree leaf = []
  free_subtree (branch l k d r) = free_subtree l ++ free_subtree r ++ d ∷ []

  unfoldable pub show_subtree : (tree_mode : Bool) → Tree A → List Token
  show_subtree tree_mode leaf = []
  show_subtree tree_mode (branch l k d r) =
      (if tree_mode then opening ∷ [] else [])
      ++ show_subtree tree_mode l
      ++ (shown k ∷ [])
      ++ show_subtree tree_mode r
      ++ (if tree_mode then closing ∷ [] else [])
