-- ===== src/Stress/Shortest.antt =====
-- floyd_warshall finds shortest walks.
use cmpsc_473_operating_syst.Common.{ℕ, zero, suc, ◌+◌, ◌*◌, ◌≤◌, ◌<◌, ◌≡◌, ◌⊎◌, inl, inr, arith}
use mathlib.Core.Path.{subst}
use native.Mathlib.Decide.{dec_lt}
use cmpsc_473_operating_syst.Stress.{
  inf_distance, Table, get_distance, for_each, relax, floyd_warshall, populate,
}
use cmpsc_473_operating_syst.Stress.Paths.{Walk, link, join, Sound, relax-Sound}

-- A walk with stops up to `k` is no shorter than one with stops below it, or than two of these that
-- meet in `k`.
abbrev Divided : ℕ → Table → ℕ → ℕ → ℕ → ℕ → Type 0
Divided n topology k i j d =
    ((a : ℕ) × Walk n topology k i j a × (a ≤ d))
    ⊎ ((a : ℕ) × (b : ℕ) × Walk n topology k i k a × Walk n topology k k j b × (a + b ≤ d))

join-Divided :
    (n : ℕ) (topology : Table) (k i m j d e : ℕ)
    → (m < k) ⊎ (m ≡ k)
    → Divided n topology k i m d
    → Divided n topology k m j e
    → Divided n topology k i j (d + e)
join-Divided n topology k i m j d e (inl small) (inl (a, w, h)) (inl (a', w', h')) =
    inl (a + a', join small w w', omega arith)
join-Divided n topology k i m j d e (inl small) (inl (a, w, h)) (inr (a', b', w', v', h')) =
    inr (a + a', b', join small w w', v', omega arith)
join-Divided n topology k i m j d e (inl small) (inr (a, b, w, v, h)) (inl (a', w', h')) =
    inr (a, b + a', w, join small v w', omega arith)
join-Divided n topology k i m j d e (inl small) (inr (a, b, w, v, h)) (inr (a', b', w', v', h')) =
    inr (a, b', w, v', omega arith)
join-Divided n topology k i m j d e (inr same) (inl (a, w, h)) (inl (a', w', h')) = inr (
  a,
  a',
  subst (λ x. Walk n topology k i x a) same w,
  subst (λ x. Walk n topology k x j a') same w',
  omega arith,
)
join-Divided n topology k i m j d e (inr same) (inl (a, w, h)) (inr (a', b', w', v', h')) =
    inr (a, b', subst (λ x. Walk n topology k i x a) same w, v', omega arith)
join-Divided n topology k i m j d e (inr same) (inr (a, b, w, v, h)) (inl (a', w', h')) =
    inr (a, a', w, subst (λ x. Walk n topology k x j a') same w', omega arith)
join-Divided n topology k i m j d e (inr same) (inr (a, b, w, v, h)) (inr (a', b', w', v', h')) =
    inr (a, b', w, v', omega arith)

Walk-Divided :
    {n : ℕ} {topology : Table} {k i j d : ℕ}
    → Walk n topology (suc k) i j d
    → Divided n topology k i j d
Walk-Divided {n} {topology} (link i j) = inl (get_distance n topology i j, link i j, omega arith)
Walk-Divided {n} {topology} {k} (join {i = i} {k = m} {j = j} {d = d} {e = e} small w w') =
    join-Divided n topology k i m j d e (ground arith) (Walk-Divided w) (Walk-Divided w')

for_each_reaches :
    (P : ℕ → Table → Type 0) (n : ℕ) (body : ℕ → Table → Table)
    → ((i : ℕ) (t : Table) → i < n → P i t → P (suc i) (body i t))
    → (t : Table) → P zero t
    → P n (for_each n body t)
for_each_reaches P zero body step t p = p
for_each_reaches P (suc n) body step t p =
    step n (for_each n body t) (omega arith)
      (for_each_reaches P n body (λ i u h. step i u (omega arith)) t p)

relax-below : (n k src dst : ℕ) (t : Table) (a : ℕ) → relax n k src dst t a ≤ t a
unfolding relax
relax-below n k src dst t a = ground arith

relax-through :
    (n k src dst : ℕ) (t : Table)
    → get_distance n t src k ≤ inf_distance
    → get_distance n t k dst ≤ inf_distance
    → get_distance n (relax n k src dst t) src dst ≤ get_distance n t src k + get_distance n t k dst
unfolding relax
relax-through n k src dst t low1 low2 = ground arith

-- During the round of `k`, from the table `t` on: the rows below `src`, and of the row `src` the
-- columns below `dst`, allow for walks through `k`.
record During (n : ℕ) (topology t : Table) (k src dst : ℕ) (u : Table) : Type 0 where
  sound : Sound n topology u
  below : (a : ℕ) → u a ≤ t a
  rows :
      (i j : ℕ)
      → i < src
      → j < n
      → get_distance n u i j ≤ get_distance n t i k + get_distance n t k j
  row : (j : ℕ) → j < dst → get_distance n u src j ≤ get_distance n t src k + get_distance n t k j

relax-During :
    (n : ℕ) (topology t : Table) (k src dst : ℕ) (u : Table)
    → k < n
    → src < n
    → dst < n
    → During n topology t k src dst u
    → During n topology t k src (suc dst) (relax n k src dst u)
relax-During n topology t k src dst u hk hs hd r =
    let now = relax-through n k src dst u (r.sound src k hs hk).0 (r.sound k dst hk hd).0 in
    let less = relax-below n k src dst u in
    record {
      sound = relax-Sound n topology k src dst u hk hs hd r.sound;
      below = λ a. omega (arith, less a, r.below a);
      rows = λ i j hi hj. omega (arith, less (i * n + j), r.rows i j hi hj);
      row = λ j hj. elim (dec_lt j dst) [
        | yes before ↦ omega (arith, less (src * n + j), r.row j before)
        | no last ↦
            let e : j ≡ dst = omega arith in
            rw e (omega (arith, now, r.below (src * n + k), r.below (k * n + dst)))
      ];
    }

-- A whole row, and the next one.
row-During :
    (n : ℕ) (topology t : Table) (k src : ℕ) (u : Table)
    → k < n
    → src < n
    → During n topology t k src 0 u
    → During n topology t k (suc src) 0 (for_each n (λ dst. relax n k src dst) u)
row-During n topology t k src u hk hs r =
    let r' =
      for_each_reaches (During n topology t k src) n (λ dst. relax n k src dst)
        (λ dst v hd rv. relax-During n topology t k src dst v hk hs hd rv) u r in
    record {
      sound = r'.sound;
      below = r'.below;
      rows = λ i j hi hj. elim (dec_lt i src) [
        | yes before ↦ r'.rows i j before hj
        | no last ↦ let e : i ≡ src = omega arith in rw e (r'.row j hj)
      ];
      row = λ j hj. absurd (omega arith);
    }

rows-During :
    (n : ℕ) (topology t : Table) (k : ℕ)
    → k < n
    → Sound n topology t
    → During n topology t k n 0 (for_each n (λ src. for_each n (λ dst. relax n k src dst)) t)
rows-During n topology t k hk sound =
    for_each_reaches (λ src. During n topology t k src 0) n _
      (λ src u hs r. row-During n topology t k src u hk hs r) t
      (record {
        sound = sound;
        below = λ a. omega arith;
        rows = λ i j hi hj. absurd (omega arith);
        row = λ j hj. absurd (omega arith);
      })

-- No walk with stops below `k` is shorter than the table has it.
abbrev AtMost : ℕ → Table → ℕ → Table → Type 0
AtMost n topology k t =
    (i j d : ℕ) → i < n → j < n → Walk n topology k i j d → get_distance n t i j ≤ d

During-AtMost :
    (n : ℕ) (topology t u : Table) (k : ℕ)
    → k < n
    → During n topology t k n 0 u
    → AtMost n topology k t
    → AtMost n topology (suc k) u
During-AtMost n topology t u k hk r h i j d hi hj w = elim (Walk-Divided w) [
  | inl (a, w', e) ↦ omega (arith, r.below (i * n + j), h i j a hi hj w')
  | inr (a, b, w1, w2, e) ↦ omega (arith, r.rows i j hi hj, h i k a hi hk w1, h k j b hk hj w2)
]

no_stops :
    {n : ℕ} {topology : Table} {i j d : ℕ}
    → Walk n topology zero i j d
    → get_distance n topology i j ≤ d
no_stops (link i j) = omega arith
no_stops (join small w w') = absurd (omega arith)

-- The distance that `floyd_warshall` leaves for two vertices, from any table that `create_topology`
-- fills from numbers that it scans, is that of a walk between them over links of the table, and no
-- walk is shorter; it is `inf_distance` at most, so that no sum overflows on the way.
pub floyd_warshall_lem :
    (n : ℕ) (scanned : ℕ → ℕ) (i j : ℕ)
    → i < n
    → j < n
    → let topology = populate scanned in
      let solution = floyd_warshall n topology in
      (get_distance n solution i j ≤ inf_distance)
      × Walk n topology n i j (get_distance n solution i j)
      × ((d : ℕ) → Walk n topology n i j d → get_distance n solution i j ≤ d)
unfolding floyd_warshall populate
floyd_warshall_lem n scanned i j hi hj =
    let topology = populate scanned in
    let (sound, least) =
      for_each_reaches (λ k t. Sound n topology t × AtMost n topology k t) n
        (λ k. for_each n (λ src. for_each n (λ dst. relax n k src dst)))
        (λ k t hk h.
          let r = rows-During n topology t k hk h.0 in
          (r.sound, During-AtMost n topology t _ k hk r h.1))
        topology ((λ a b ha hb. (ground arith, link a b)), λ a b d ha hb w. no_stops w) in
    let (low, walk) = sound i j hi hj in (low, walk, λ d w. least i j d hi hj w)
