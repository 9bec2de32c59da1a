-- ===== src/Stress.antt =====
-- concurrency-project-FreezeKickerz/stress.c: the tables of distances and the shortest paths that
-- the stress test expects of its routers. A table is the array, as a function of the index.
mod Paths
mod Shortest
mod Tests
use cmpsc_473_operating_syst.Common.{
  ℕ, zero, suc, ◌+◌, ◌*◌, ◌-◌, ◌%◌, ◌^◌, ltb, ◌==◌, if◌then◌else◌,
}

abbrev pub inf_distance : ℕ
inf_distance = 2 ^ 31 - 1

abbrev pub Table : Type 0
Table = ℕ → ℕ

-- `get_link_distance` and `get_solution_distance`, with `num_channel` as `n`.
abbrev pub get_distance : ℕ → Table → ℕ → ℕ → ℕ
get_distance n t src dst = t (src * n + dst)

abbrev pub set_distance : ℕ → Table → ℕ → ℕ → ℕ → Table
set_distance n t src dst distance = λ a. if a == src * n + dst then distance else t a

-- `for (i = 0; i < n; i++)`
abbrev pub for_each : ℕ → (ℕ → Table → Table) → Table → Table
for_each zero body t = t
for_each (suc n) body t = body n (for_each n body t)

-- The innermost body; `unsigned int` sums wrap.
unfoldable pub relax : ℕ → ℕ → ℕ → ℕ → Table → Table
relax n intermediate src dst t =
    let through =
      (get_distance n t src intermediate + get_distance n t intermediate dst) % 2 ^ 32 in
    if ltb through (get_distance n t src dst) then set_distance n t src dst through else t

unfoldable pub floyd_warshall : ℕ → Table → Table
unfolding relax
floyd_warshall n topology =
    for_each n
      (λ intermediate. for_each n (λ src. for_each n (λ dst. relax n intermediate src dst)))
      topology

-- The table that `create_topology` fills from the numbers that it scans, as their bits.
unfoldable pub populate : (scanned : ℕ → ℕ) → Table
populate scanned a = if ltb inf_distance (scanned a) then inf_distance else scanned a
