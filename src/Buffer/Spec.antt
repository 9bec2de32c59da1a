-- ===== src/Buffer/Spec.antt =====
-- What buffer.h promises: a first-in-first-out queue of at most `capacity` values.
use cmpsc_473_operating_syst.Common.{
  ℕ, Option, none, some, List, [], ◌∷◌, ◌++◌, ltb, if◌then◌else◌, length,
}
use cmpsc_473_operating_syst.Buffer.{
  Status, buffer_success, buffer_error, Call, adds, removes, sizes, Reply, added, removed, sized,
}

module _ {A : Type 0} where
  unfoldable pub push : ℕ → List A → A → Status × List A
  push capacity q x =
      if ltb (length q) capacity then (buffer_success, q ++ x ∷ []) else (buffer_error, q)

  unfoldable pub pop : List A → Status × Option A × List A
  pop [] = (buffer_error, none, [])
  pop (x ∷ q) = (buffer_success, some x, q)

  unfoldable pub run : ℕ → List A → List (Call A) → List (Reply A)
  run capacity q [] = []
  run capacity q (adds x ∷ calls) =
      let (s, q') = push capacity q x in added s ∷ run capacity q' calls
  run capacity q (removes ∷ calls) =
      let (s, out, q') = pop q in removed s out ∷ run capacity q' calls
  run capacity q (sizes ∷ calls) = sized (length q) ∷ run capacity q calls
