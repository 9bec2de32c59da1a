-- ===== src/Malloc/Around.antt =====
-- A row with the epilogue behind it, and two parts of the heap around the bytes that an operation
-- writes.
use cmpsc_473_operating_syst.Common.{
  ℕ, ◌+◌, ◌-◌, ◌%◌, ◌^◌, ◌≤◌, ◌<◌, ◌≡◌, ◌∙◌, ◌⊎◌, inl, inr, arith, Bool, true, false, [], ◌∷◌, ◌++◌,
  if◌then◌else◌,
}
use cmpsc_473_operating_syst.Memlib.{MemLib, Memory, mem_read, mem_write}
use cmpsc_473_operating_syst.Memlib.Bounds.{mem_write_outside}
use cmpsc_473_operating_syst.Memlib.Words.{mem_read-mem_write, mem_read-mem_write_ne}
use cmpsc_473_operating_syst.Malloc.{Mm, load, put, size_of, has_2, toggle_2, without_2, keep_2}
use cmpsc_473_operating_syst.Malloc.Blocks.{
  vacant, used, Row, row_end, last_used, vacancies, flag, Tiled, Loose, row_end-le, row_end-append,
  last_used-append, Loose-below, Loose-above, Tiled-append, Tiled-split, Tiled-write,
}
use cmpsc_473_operating_syst.Malloc.Vacancies.{In, vacancies_within, Loose-links}

-- The epilogue is an allocated block of no size.
abbrev pub Runs : Memory → Bool → ℕ → Row → Type 0
Runs mem u a bs = Tiled mem u a bs × (mem_read mem (row_end a bs) 8 ≡ 1 + flag (last_used u bs))

pub Runs-append :
    (mem : Memory) (u : Bool) (a : ℕ) (xs ys : Row)
    → Tiled mem u a xs
    → Runs mem (last_used u xs) (row_end a xs) ys
    → Runs mem u a (xs ++ ys)
Runs-append mem u a xs ys t (v, last) =
    (Tiled-append mem u a xs ys t v, rw (row_end-append a xs ys, last_used-append u xs ys) last)

pub Runs-split :
    (mem : Memory) (u : Bool) (a : ℕ) (xs ys : Row)
    → Runs mem u a (xs ++ ys)
    → Tiled mem u a xs × Runs mem (last_used u xs) (row_end a xs) ys
Runs-split mem u a xs ys (t, last) =
    let (left, right) = Tiled-split mem u a xs ys t in
    (left, (right, rw (← row_end-append a xs ys, ← last_used-append u xs ys) last))

Runs-write :
    (mem : Memory) (u : Bool) (a x v : ℕ) (bs : Row)
    → Loose x a bs
    → (x + 8 ≤ row_end a bs) ⊎ (row_end a bs + 8 ≤ x)
    → Runs mem u a bs
    → Runs (mem_write mem x v 8) u a bs
Runs-write mem u a x v bs l out (t, last) = (
  Tiled-write mem u a x v bs l t,
  mem_read-mem_write_ne mem x v (row_end a bs) (ground arith) ∙ last,
)

-- The first word of a row with its epilogue: but for the mark of the block before, and with any mark.
abbrev pub Marked : Memory → Bool → ℕ → Row → ℕ → Type 0
Marked mem u a bs w =
    (mem_read mem a 8 ≡ w + flag u)
    × (w % 4 ≤ 1)
    × (w + 2 < 2 ^ 64)
    × ((u' : Bool) → Runs (mem_write mem a (w + flag u') 8) u' a bs)

flag_small : (u : Bool) → flag u ≤ 2
flag_small true = omega arith
flag_small false = omega arith

pub Runs-Marked :
    (mem : Memory) (u : Bool) (a : ℕ) (bs : Row)
    → row_end a bs + 8 ≤ 2 ^ 64
    → Runs mem u a bs
    → (w : ℕ) × Marked mem u a bs w
Runs-Marked mem u a [] fits (t, last) = (
  1,
  (
    last,
    omega arith,
    omega arith,
    λ u'. (tt, mem_read-mem_write mem a (1 + flag u') (omega (arith, flag_small u'))),
  ),
)
Runs-Marked mem u a (vacant k ∷ bs) fits (((sized, head, foot), t), last) =
    let end = row_end-le (a + k) bs in
    (
      k,
      (
        head,
        omega arith,
        omega arith,
        λ u'. (
          (
            (
              sized,
              mem_read-mem_write mem a (k + flag u') (omega (arith, flag_small u')),
              mem_read-mem_write_ne mem a (k + flag u') (a + k - 8) (inr (omega arith)) ∙ foot,
            ),
            Tiled-write mem false (a + k) a (k + flag u') bs
                (Loose-below a (a + k) bs (omega arith)) t,
          ),
          mem_read-mem_write_ne mem a (k + flag u') (row_end (a + k) bs) (inr (omega arith)) ∙ last,
        ),
      ),
    )
Runs-Marked mem u a (used k c ∷ bs) fits (((sized, head, bytes), t), last) =
    let end = row_end-le (a + k) bs in
    (
      k + 1,
      (
        head,
        omega arith,
        omega arith,
        λ u'. (
          (
            (
              sized,
              mem_read-mem_write mem a (k + 1 + flag u') (omega (arith, flag_small u')),
              λ i small.
                  mem_write_outside mem a (k + 1 + flag u') 8 (a + 8 + i) (inr (omega arith))
                  ∙ bytes i small,
            ),
            Tiled-write mem true (a + k) a (k + 1 + flag u') bs
                (Loose-below a (a + k) bs (omega arith)) t,
          ),
          mem_read-mem_write_ne mem a (k + 1 + flag u') (row_end (a + k) bs) (inr (omega arith))
              ∙ last,
        ),
      ),
    )

pub size_of-flag : (k : ℕ) (u : Bool) → k % 16 ≡ 0 → size_of (k + flag u) ≡ k
size_of-flag k true h = omega arith
size_of-flag k false h = omega arith

pub size_of_used : (k : ℕ) (u : Bool) → k % 16 ≡ 0 → size_of (k + 1 + flag u) ≡ k
size_of_used k true h = omega arith
size_of_used k false h = omega arith

pub has_2-flag : (w : ℕ) (u : Bool) → w % 4 ≤ 1 → has_2 (w + flag u) ≡ u
has_2-flag w true h = ground arith
has_2-flag w false h = ground arith

pub without_2-flag : (w : ℕ) (u : Bool) → w % 4 ≤ 1 → without_2 (w + flag u) ≡ w
without_2-flag w u h = rw (has_2-flag w u h) (last u)
  where
    last : (v : Bool) → (if v then w + flag v - 2 else w + flag v) ≡ w
    last true = omega arith
    last false = omega arith

pub toggle_2_clear : (w : ℕ) → w % 4 ≤ 1 → toggle_2 w ≡ w + 2
toggle_2_clear w h = ground arith

pub keep_2-flag : (w n : ℕ) (u : Bool) → w % 4 ≤ 1 → n % 4 ≤ 1 → keep_2 (w + flag u) n ≡ n + flag u
keep_2-flag w n true h h' = rw (has_2-flag w true h) (toggle_2_clear n h')
keep_2-flag w n false h h' = rw (has_2-flag w false h) (omega arith)

-- The rows `ls` and `rs`, with other bytes between them.
module _ (lib : MemLib) (ls rs : Row) (hi : ℕ) where
  abbrev pub start : ℕ
  start = lib.heap + 8

  abbrev pub low : ℕ
  low = row_end start ls

  abbrev pub Around : Bool → Mm → Type 0
  Around u s = (s.lib ≡ lib) × Tiled s.mem true start ls × Runs s.mem u hi rs

  pub Around-put :
      (u : Bool) (s : Mm) (w v : ℕ) → low ≤ w → w + 8 ≤ hi → Around u s → Around u (put s w v)
  Around-put u s w v above below (same, t, r) = (
    same,
    Tiled-write s.mem true start w v ls (Loose-above w start ls above) t,
    Runs-write s.mem u hi w v rs (Loose-below w hi rs below) (inl (omega (arith, row_end-le hi rs)))
        r,
  )

  -- A block whose links lie between the rows, or a free one of theirs.
  abbrev pub Linkable : ℕ → Type 0
  Linkable x =
      ((low ≤ x + 8) × (x + 24 ≤ hi)) ⊎ (In x (vacancies start ls) ⊎ In x (vacancies hi rs))

  pub Around-link :
      (u : Bool) (s : Mm) (x w v : ℕ)
      → low ≤ hi
      → Linkable x
      → (w ≡ x + 8) ⊎ (w ≡ x + 16)
      → Around u s
      → Around u (put s w v)
  Around-link u s x w v order (inl (above, below)) which around =
      Around-put u s w v (ground arith) (ground arith) around
  Around-link u s x w v order (inr (inl i)) which (same, t, r) =
      let (above, below) = vacancies_within s.mem true start x ls t i in
      (
        same,
        Tiled-write s.mem true start w v ls (Loose-links s.mem true start x w ls t i which) t,
        Runs-write s.mem u hi w v rs (Loose-below w hi rs (ground arith))
            (inl (ground (arith, row_end-le hi rs))) r,
      )
  Around-link u s x w v order (inr (inr i)) which (same, t, r) =
      let (above, below) = vacancies_within s.mem u hi x rs r.0 i in
      (
        same,
        Tiled-write s.mem true start w v ls (Loose-above w start ls (ground arith)) t,
        Runs-write s.mem u hi w v rs (Loose-links s.mem u hi x w rs r.0 i which)
            (inl (ground arith)) r,
      )

  pub Around-flag :
      (u : Bool) (s : Mm)
      → low ≤ hi
      → row_end hi rs + 8 ≤ 2 ^ 64
      → Around u s
      → (w : ℕ) × ((load s hi ≡ w + flag u)
          × (w % 4 ≤ 1)
          × (w + 2 < 2 ^ 64)
          × ((u' : Bool) → Around u' (put s hi (w + flag u'))))
  Around-flag u s order fits (same, t, r) =
      let (w, (word, mark, mem_fits, marked)) = Runs-Marked s.mem u hi rs fits r in
      (
        w,
        (
          word,
          mark,
          mem_fits,
          λ u'. (
            same,
            Tiled-write s.mem true start hi (w + flag u') ls (Loose-above hi start ls order) t,
            marked u',
          ),
        ),
      )
