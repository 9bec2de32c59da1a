-- ===== src/Buffer/Tests.antt =====
-- Runs of the buffer, and the theorems at concrete buffers.
use cmpsc_473_operating_syst.Common.{ℕ, ◌≡◌, refl, none, some, List, [], ◌∷◌, arith}
use cmpsc_473_operating_syst.Buffer.{
  buffer_success, buffer_error, buffer_create, run, buffer_add, buffer_remove, buffer_current_size,
  Call, adds, removes, sizes, added, removed, sized,
}
use cmpsc_473_operating_syst.Buffer.Spec
use cmpsc_473_operating_syst.Buffer.Refine.{buffer_create_refines}

abbrev storage : List ℕ
storage = 0 ∷ 0 ∷ []

-- Fills the two places, overflows, and goes round the end of the array.
abbrev script : List (Call ℕ)
script = adds 5 ∷ adds 6 ∷ adds 7 ∷ removes ∷ adds 8 ∷ sizes ∷ removes ∷ removes ∷ removes ∷ []

run-script :
    run (buffer_create storage 2) script
    ≡ added buffer_success
      ∷ added buffer_success
      ∷ added buffer_error
      ∷ removed buffer_success (some 5)
      ∷ added buffer_success
      ∷ sized 2
      ∷ removed buffer_success (some 6)
      ∷ removed buffer_success (some 8)
      ∷ removed buffer_error none
      ∷ []
unfolding run buffer_create buffer_add buffer_remove buffer_current_size
run-script = refl

buffer_create_refines_example : run (buffer_create storage 2) script ≡ Spec.run 2 [] script
buffer_create_refines_example = buffer_create_refines storage 2 script (omega arith) (omega arith)
