-- ===== src/Malloc/Joining.antt =====
-- What free leaves: the freed block, with the free blocks beside it taken in.
use cmpsc_473_operating_syst.Common.{
  ℕ, ◌+◌, ◌≤◌, ◌<◌, ◌≡◌, refl, ap, ◌⊎◌, inl, inr, arith, true, [], ◌∷◌, ◌++◌, ltb, ◌||◌, Bool-cases,
}
use mathlib.Core.Path.{subst}
use cmpsc_473_operating_syst.Memlib.{MemLib}
use cmpsc_473_operating_syst.Malloc.{Mm}
use cmpsc_473_operating_syst.Malloc.Blocks.{vacant, used, Row, size, is_used, row_end, last_used}
use cmpsc_473_operating_syst.Malloc.Coalesce.{NextKept, PrevKept}
use cmpsc_473_operating_syst.Malloc.Neighbours.{Joined}

-- The last two blocks of a row are not both free.
abbrev pub Separate : Row → Type 0
Separate [] = Unit {0}
Separate (b ∷ []) = Unit {0}
Separate (b ∷ c ∷ []) = (is_used b || is_used c) ≡ true
Separate (b ∷ c ∷ d ∷ bs) = Separate (c ∷ d ∷ bs)

-- What the block takes in: the free block before it and the one behind, unless they begin less than
-- 58 bytes before the end of the heap.
abbrev pub Joins : MemLib → Row → ℕ → Row → Mm → Type 0
Joins lib ls k rs s' =
    let brk = lib.mem_brk in
    (ls' : Row) × (j : ℕ) × (m : ℕ) × (rs' : Row) × ((((ls' ≡ ls)
          × (j ≡ 0)
          × PrevKept brk (lib.heap + 8) ls)
        ⊎ (ls ≡ ls' ++ vacant j ∷ []))
      × (((rs' ≡ rs) × (m ≡ 0) × NextKept brk (row_end (lib.heap + 8) ls + k) rs)
          ⊎ (rs ≡ vacant m ∷ rs'))
      × Joined lib ls' (j + k + m) rs' s')

pub last_cases :
    (ls : Row) → (last_used true ls ≡ true) ⊎ ((ks : Row) × (j : ℕ) × (ls ≡ ks ++ vacant j ∷ []))
last_cases [] = inl refl
last_cases (vacant j ∷ []) = inr ([], j, refl)
last_cases (used j c ∷ []) = inl refl
last_cases (b ∷ c ∷ ls) = elim (last_cases (c ∷ ls)) [
  | inl e ↦ inl e
  | inr (ks, j, e) ↦ inr (b ∷ ks, j, ap (λ t. b ∷ t) e)
]

pub Separate-last : (ks : Row) (j : ℕ) → Separate (ks ++ vacant j ∷ []) → last_used true ks ≡ true
Separate-last [] j h = refl
Separate-last (vacant i ∷ []) j h = h
Separate-last (used i c ∷ []) j h = refl
Separate-last (b ∷ c ∷ []) j h = Separate-last (c ∷ []) j h
Separate-last (b ∷ c ∷ d ∷ ks) j h = Separate-last (c ∷ d ∷ ks) j h

pub PrevKept-used : (brk a : ℕ) (ls : Row) → last_used true ls ≡ true → PrevKept brk a ls
PrevKept-used brk a [] e = tt
PrevKept-used brk a (vacant k ∷ []) e = absurd (ground (arith, e))
PrevKept-used brk a (used k c ∷ []) e = tt
PrevKept-used brk a (b ∷ c ∷ bs) e = PrevKept-used brk (a + size b) (c ∷ bs) e

pub PrevKept-far :
    (brk a : ℕ) (ks : Row) (j : ℕ) → brk ≤ row_end a ks + 57 → PrevKept brk a (ks ++ vacant j ∷ [])
PrevKept-far brk a [] j h = h
PrevKept-far brk a (b ∷ []) j h = h
PrevKept-far brk a (b ∷ c ∷ ks) j h = PrevKept-far brk (a + size b) (c ∷ ks) j h

pub NextKept-far : (brk e : ℕ) (rs : Row) → brk ≤ e + 57 → NextKept brk e rs
NextKept-far brk e [] h = tt
NextKept-far brk e (vacant k ∷ rs) h = h
NextKept-far brk e (used k c ∷ rs) h = tt

pub next_cases :
    (brk e : ℕ) (rs : Row)
    → NextKept brk e rs ⊎ ((m : ℕ) × (ts : Row) × ((rs ≡ vacant m ∷ ts) × (e + 57 < brk)))
next_cases brk e [] = inl tt
next_cases brk e (used k c ∷ rs) = inl tt
next_cases brk e (vacant k ∷ rs) = elim (Bool-cases (ltb (e + 57) brk)) [
  | inl below ↦ inr (k, rs, (refl, ground arith))
  | inr above ↦ inl (ground arith)
]

pub Joined-size :
    (lib : MemLib) (s' : Mm) (ls : Row) (k k' : ℕ) (rs : Row)
    → k ≡ k'
    → Joined lib ls k rs s'
    → Joined lib ls k' rs s'
Joined-size lib s' ls k k' rs e h = subst (λ t. Joined lib ls t rs s') e h
