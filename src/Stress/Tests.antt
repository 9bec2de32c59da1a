-- ===== src/Stress/Tests.antt =====
-- A run of the shortest paths, and the theorem at its table.
use cmpsc_473_operating_syst.Common.{ℕ, ◌==◌, ◌||◌, if◌then◌else◌, ◌≤◌, ◌^◌, ◌-◌, ◌≡◌, refl, arith}
use cmpsc_473_operating_syst.Stress.{inf_distance, get_distance, relax, floyd_warshall, populate}
use cmpsc_473_operating_syst.Stress.Paths.{Walk}
use cmpsc_473_operating_syst.Stress.Shortest.{floyd_warshall_lem}

-- Three vertices: from 0 to 1 in 5, from 1 to 2 in 1, from 0 to 2 in 9, and -1 for no link back.
abbrev scanned : ℕ → ℕ
scanned a =
    if a == 1
    then 5
    else if a == 2
    then 9
    else if a == 5
    then 1
    else if ((a == 0) || (a == 4)) || (a == 8)
    then 0
    else 2 ^ 32 - 1

floyd_warshall-three : get_distance 3 (floyd_warshall 3 (populate scanned)) 0 2 ≡ 6
unfolding floyd_warshall relax populate
floyd_warshall-three = refl

floyd_warshall_lem_example :
    let topology = populate scanned in
    let solution = floyd_warshall 3 topology in
    (get_distance 3 solution 0 2 ≤ inf_distance)
    × Walk 3 topology 3 0 2 (get_distance 3 solution 0 2)
    × ((d : ℕ) → Walk 3 topology 3 0 2 d → get_distance 3 solution 0 2 ≤ d)
floyd_warshall_lem_example = floyd_warshall_lem 3 scanned 0 2 (omega arith) (omega arith)
