-- ===== src/SplayTree/Tests.antt =====
-- The theorems on splay trees at a tree of three keys.
use cmpsc_473_operating_syst.Common.{ℕ, arith}
use cmpsc_473_operating_syst.SplayTree.{leaf, branch, TreeT, tree_insert, tree_remove}
use cmpsc_473_operating_syst.SplayTree.Entries.{entries}
use cmpsc_473_operating_syst.SplayTree.Search.{Sorted, Inserted, tree_insert-Inserted}
use cmpsc_473_operating_syst.SplayTree.Remove.{Removed, tree_remove-Removed}

abbrev three : TreeT ℕ
three = record {
  root = branch (branch leaf 2 20 leaf) 5 50 (branch leaf 9 90 leaf);
  node_count = 3;
  comparison_count = 0;
}

three-Sorted : Sorted (entries three.root)
three-Sorted = ((omega arith, (omega arith, tt)), ((omega arith, tt), (tt, tt)))

tree_insert-Inserted_example : Inserted three 7 70 (tree_insert three 7 70)
tree_insert-Inserted_example = tree_insert-Inserted three 7 70 three-Sorted

tree_remove-Removed_example : Removed three 5 (tree_remove three 5)
tree_remove-Removed_example = tree_remove-Removed three 5 three-Sorted
