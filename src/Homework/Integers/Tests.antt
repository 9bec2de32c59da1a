-- ===== src/Homework/Integers/Tests.antt =====
-- A sum that goes round the end of `int`.
use cmpsc_473_operating_syst.Common.{◌%◌, ◌^◌, ◌≡◌, List, [], ◌∷◌}
use cmpsc_473_operating_syst.Homework.Integers.{
  TaggedUnion, int, char4, add_tagged_unions, total, add_tagged_unions-total,
}

abbrev unions : List TaggedUnion
unions = int 4294967290 ∷ char4 1 2 3 4 ∷ int 7 ∷ []

add_tagged_unions-total_example : add_tagged_unions unions ≡ total unions % 2 ^ 32
add_tagged_unions-total_example = add_tagged_unions-total unions
