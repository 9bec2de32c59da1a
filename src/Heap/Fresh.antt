-- ===== src/Heap/Fresh.antt =====
-- An allocator that always has memory: it gives an address above all that are in use.
use cmpsc_473_operating_syst.Common.{suc, ◌+◌, ◌≤◌, ◌≡◌, refl, false, [], ◌∷◌, arith}
use cmpsc_473_operating_syst.Heap.{Ptr}
use cmpsc_473_operating_syst.Heap.Linked.{Cells, has}

module _ {A : Type 0} where
  unfoldable pub above : Cells A → Ptr
  above [] = 1
  above ((p, e) ∷ xs) = suc p + above xs

  not-has-above : (a : Ptr) (xs : Cells A) → above xs ≤ a → has a xs ≡ false
  unfolding above
  not-has-above a [] h = refl
  not-has-above a ((p, e) ∷ xs) h = ground (arith, not-has-above a xs)

  pub has-above : (xs : Cells A) → has (above xs) xs ≡ false
  has-above xs = not-has-above (above xs) xs (omega arith)
