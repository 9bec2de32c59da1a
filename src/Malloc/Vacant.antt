-- ===== src/Malloc/Vacant.antt =====
-- A free block of the heap, with the blocks before and behind it; and the heap put together again.
use cmpsc_473_operating_syst.Common.{
  ℕ, ◌+◌, ◌-◌, ◌^◌, ◌<◌, ◌≡◌, refl, ap, sym, ◌∙◌, arith, true, false, List, ◌∷◌, ◌++◌, length,
}
use mathlib.Core.Path.{subst}
use cmpsc_473_operating_syst.Memlib.{MemLib}
use cmpsc_473_operating_syst.Malloc.{Mm, load}
use cmpsc_473_operating_syst.Malloc.FreeList.{Placed}
use cmpsc_473_operating_syst.Malloc.Blocks.{
  vacant, used, Row, row_end, row_end-le, row_end-append, last_used, vacancies, vacancies-append,
  flag, Sized,
}
use cmpsc_473_operating_syst.Malloc.Vacancies.{In, Same}
use cmpsc_473_operating_syst.Malloc.Members.{NotIn, Placed-NotIn, Same-around, length-around}
use cmpsc_473_operating_syst.Malloc.Around.{Runs, Runs-split, Runs-append, Around, Linkable}
use cmpsc_473_operating_syst.Malloc.Invariant.{IsHeap, Beside, vacancies-Beside, Shape}
use cmpsc_473_operating_syst.Malloc.Relink.{vacancies-Linkable}

pub record HasVacant (s : Mm) (ls : Row) (k : ℕ) (rs : Row) (xs : List ℕ) (b : ℕ) : Type 0 where
  pub sized : Sized k
  pub header : load s b ≡ k + flag (last_used true ls)
  pub footer : load s (b + k - 8) ≡ k
  pub shape : Shape s.lib ls rs (b + k) xs false s
  pub beside : Beside b (b + k) xs
  pub linkable : (x : ℕ) → In x xs → Linkable s.lib ls rs (b + k) x
  pub behind : row_end (b + k) rs + 8 < 2 ^ 64
  pub before : 8 < b

pub IsHeap-HasVacant :
    (s : Mm) (ls : Row) (k : ℕ) (rs : Row) (xs : List ℕ)
    → IsHeap s (ls ++ vacant k ∷ rs) xs
    → HasVacant s ls k rs xs (row_end (s.lib.heap + 8) ls)
IsHeap-HasVacant s ls k rs xs h =
    let a = s.lib.heap + 8 in
    let (low, align, end, most, limit) = h.fits in
    let (left, (((sized, header, footer), right), last)) =
      Runs-split s.mem true a ls (vacant k ∷ rs) h.runs in
    record {
      sized = sized;
      header = header;
      footer = footer;
      shape = ((refl, left, (right, last)), h.linked);
      beside = λ x i. vacancies-Beside s a ls k rs true false left (right, last) x ((h.same x).0 i);
      linkable = λ x i. vacancies-Linkable s.lib ls k rs sized.0 x ((h.same x).0 i);
      behind = omega (arith, row_end-append a ls (vacant k ∷ rs));
      before = omega (arith, row_end-le a ls);
    }

-- The middle of the heap holds a row again.
pub Around-Runs :
    (lib : MemLib) (ls ms rs : Row) (hi : ℕ) (s : Mm)
    → Around lib ls rs hi (last_used (last_used true ls) ms) s
    → row_end (row_end (lib.heap + 8) ls) ms ≡ hi
    → (Runs s.mem (last_used (last_used true ls) ms) (row_end (row_end (lib.heap + 8) ls) ms) rs
        → Runs s.mem (last_used true ls) (row_end (lib.heap + 8) ls) (ms ++ rs))
    → Runs s.mem true (lib.heap + 8) (ls ++ (ms ++ rs))
Around-Runs lib ls ms rs hi s (same, left, right) at middle =
    Runs-append s.mem true (lib.heap + 8) ls (ms ++ rs) left
      (middle (subst (λ t. Runs s.mem (last_used (last_used true ls) ms) t rs) (sym at) right))

-- The free blocks when the one at `b` is gone.
module _ (lib : MemLib) (ls : Row) (k : ℕ) (rs : Row) (c : ℕ → ℕ) (b : ℕ)
    (at : row_end (lib.heap + 8) ls ≡ b) (ys zs : List ℕ) where
  abbrev around : List ℕ
  around = vacancies (lib.heap + 8) ls ++ vacancies (b + k) rs

  vacancies-used : vacancies (lib.heap + 8) (ls ++ used k c ∷ rs) ≡ around
  vacancies-used =
      vacancies-append (lib.heap + 8) ls (used k c ∷ rs)
      ∙ ap (λ t. vacancies (lib.heap + 8) ls ++ vacancies (t + k) rs) at

  vacancies-vacant :
      vacancies (lib.heap + 8) (ls ++ vacant k ∷ rs)
      ≡ vacancies (lib.heap + 8) ls ++ b ∷ vacancies (b + k) rs
  vacancies-vacant =
      vacancies-append (lib.heap + 8) ls (vacant k ∷ rs)
      ∙ ap (λ t. vacancies (lib.heap + 8) ls ++ t ∷ vacancies (t + k) rs) at

  pub Same-taken :
      Placed (ys ++ b ∷ zs)
      → NotIn b around
      → Same (ys ++ b ∷ zs) (vacancies (lib.heap + 8) (ls ++ vacant k ∷ rs))
      → Same (ys ++ zs) (vacancies (lib.heap + 8) (ls ++ used k c ∷ rs))
  Same-taken placed out same = subst (Same (ys ++ zs)) (sym vacancies-used) (
      Same-around b ys zs (vacancies (lib.heap + 8) ls) (vacancies (b + k) rs)
        (subst (Same (ys ++ b ∷ zs)) vacancies-vacant same) (Placed-NotIn b ys zs placed) out)

  pub length-taken :
      length (ys ++ b ∷ zs) ≡ length (vacancies (lib.heap + 8) (ls ++ vacant k ∷ rs))
      → length (ys ++ zs) ≡ length (vacancies (lib.heap + 8) (ls ++ used k c ∷ rs))
  length-taken e =
      length-around b ys zs (vacancies (lib.heap + 8) ls) (vacancies (b + k) rs)
        (e ∙ ap length vacancies-vacant)
      ∙ ap length (sym vacancies-used)
