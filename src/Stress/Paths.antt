-- ===== src/Stress/Paths.antt =====
-- Walks over the links of a table, and tables of lengths of walks.
use cmpsc_473_operating_syst.Common.{
  ℕ, suc, ◌+◌, ◌*◌, ◌%◌, ◌^◌, ◌≤◌, ◌<◌, ◌≡◌, ap, inl, inr, ltb, ◌==◌, arith, Bool-cases,
}
use native.Mathlib.Decide.{dec_lt}
use cmpsc_473_operating_syst.Stress.{inf_distance, Table, get_distance, set_distance, relax}

-- A walk over links whose inner stops are below `m`, and the sum of its distances.
pub data Walk (n : ℕ) (topology : Table) (m : ℕ) : ℕ → ℕ → ℕ → Type 0 where
  link : (i j : ℕ) → Walk n topology m i j (get_distance n topology i j)
  join :
      {i k j d e : ℕ}
      → k < m
      → Walk n topology m i k d
      → Walk n topology m k j e
      → Walk n topology m i j (d + e)

row_below : (n i s j : ℕ) → i < s → j < n → i * n + j < s * n
row_below n i s j h small =
    let rows : suc i * n ≤ s * n = grind arith in
    let row : suc i * n ≡ i * n + n = grind arith in omega arith

index-injective : (n i j s d : ℕ) → j < n → d < n → i * n + j ≡ s * n + d → (i ≡ s) × (j ≡ d)
index-injective n i j s d hj hd e = elim (dec_lt i s) [
  | yes below ↦ absurd (omega (arith, row_below n i s j below hj))
  | no up ↦ elim (dec_lt s i) [
    | yes above ↦ absurd (omega (arith, row_below n s i d above hd))
    | no down ↦
        let same : i ≡ s = omega arith in
        let row : i * n ≡ s * n = ap (λ m. m * n) same in (same, omega arith)
  ]
]

-- Every entry is the length of a walk between its two ends, and none is above `inf_distance`.
abbrev pub Sound : ℕ → Table → Table → Type 0
Sound n topology t =
    (i j : ℕ)
    → i < n
    → j < n
    → (get_distance n t i j ≤ inf_distance) × Walk n topology n i j (get_distance n t i j)

set_distance-Sound :
    (n : ℕ) (topology t : Table) (src dst v : ℕ)
    → dst < n
    → v ≤ inf_distance
    → Walk n topology n src dst v
    → Sound n topology t
    → Sound n topology (set_distance n t src dst v)
set_distance-Sound n topology t src dst v hd low walk h i j hi hj =
    elim (Bool-cases (i * n + j == src * n + dst)) [
      | inl here ↦
          let (row, column) = index-injective n i j src dst hj hd (ground arith) in
          rw here (low, rw (row, column) walk)
      | inr elsewhere ↦ rw elsewhere (h i j hi hj)
    ]

pub relax-Sound :
    (n : ℕ) (topology : Table) (k src dst : ℕ) (t : Table)
    → k < n
    → src < n
    → dst < n
    → Sound n topology t
    → Sound n topology (relax n k src dst t)
unfolding relax
relax-Sound n topology k src dst t hk hs hd h =
    let through = get_distance n t src k + get_distance n t k dst in
    let (low1, walk1) = h src k hs hk in
    let (low2, walk2) = h k dst hk hd in
    let (low, walk) = h src dst hs hd in
    let no_wrap : through % 2 ^ 32 ≡ through = omega arith in
    rw no_wrap (elim (Bool-cases (ltb through (get_distance n t src dst))) [
      | inl shorter ↦ rw shorter (
          set_distance-Sound n topology t src dst through hd (ground arith) (join hk walk1 walk2) h)
      | inr longer ↦ rw longer h
    ])
