-- ===== src/Malloc/Listed.antt =====
-- A block whose words are those of a free one goes into the list.
use cmpsc_473_operating_syst.Common.{
  ℕ, ◌+◌, ◌-◌, ◌^◌, ◌≤◌, ◌<◌, ◌≡◌, refl, ap, sym, ◌∙◌, ◌⊎◌, inl, inr, arith, Bool, true, false,
  List, ◌∷◌, ◌++◌, length,
}
use mathlib.Core.Path.{subst}
use cmpsc_473_operating_syst.Memlib.{MemLib}
use cmpsc_473_operating_syst.Malloc.{Mm, load, add_to_free_list}
use cmpsc_473_operating_syst.Malloc.FreeList.{Placed, Outside}
use cmpsc_473_operating_syst.Malloc.Blocks.{
  vacant, Row, row_end, row_end-le, row_end-append, last_used, vacancies, vacancies-append, flag,
  Sized,
}
use cmpsc_473_operating_syst.Malloc.Vacancies.{In, Same, In-append, AllApart-of, vacancies_within}
use cmpsc_473_operating_syst.Malloc.Members.{Same-cons, length-cons}
use cmpsc_473_operating_syst.Malloc.Around.{Runs, Runs-append, Around, Linkable}
use cmpsc_473_operating_syst.Malloc.Invariant.{IsHeap, Fits, Shape}
use cmpsc_473_operating_syst.Malloc.Relink.{load-add, Shape-add}

module _ (lib : MemLib) (ls rs : Row) (hi : ℕ) where
  -- The free blocks outside the bytes from `low` to `hi`.
  abbrev pub outer : List ℕ
  outer = vacancies (lib.heap + 8) ls ++ vacancies hi rs

  pub outer-apart :
      (u : Bool) (s : Mm)
      → Around lib ls rs hi u s
      → (x : ℕ) → In x outer
      → (x + 32 ≤ row_end (lib.heap + 8) ls) ⊎ (hi ≤ x)
  outer-apart u s (same, left, right) x i =
      let a = lib.heap + 8 in
      elim (In-append x (vacancies a ls) (vacancies hi rs) i) [
        | inl l ↦ inl (vacancies_within s.mem true a x ls left l).1
        | inr r ↦ inr (vacancies_within s.mem u hi x rs right.0 r).0
      ]

  pub outer-Linkable : (x : ℕ) → In x outer → Linkable lib ls rs hi x
  outer-Linkable x i = elim (In-append x (vacancies (lib.heap + 8) ls) (vacancies hi rs) i) [
    | inl l ↦ inr (inl l)
    | inr r ↦ inr (inr r)
  ]

module _ (lib : MemLib) (ls : Row) (k : ℕ) (rs : Row) (xs : List ℕ) (s : Mm) (sized : Sized k)
    (shape : Shape lib ls rs (row_end (lib.heap + 8) ls + k) xs false s)
    (same : Same xs (outer lib ls rs (row_end (lib.heap + 8) ls + k))) (placed : Placed xs)
    (counted : length xs ≡ length (outer lib ls rs (row_end (lib.heap + 8) ls + k)))
    (fits : Fits lib (ls ++ vacant k ∷ rs)) where
  abbrev a : ℕ
  a = lib.heap + 8

  abbrev b : ℕ
  b = row_end a ls

  abbrev bs : Row
  bs = ls ++ vacant k ∷ rs

  abbrev t : Mm
  t = add_to_free_list b s

  behind : row_end (b + k) rs + 8 < 2 ^ 64
  behind =
      let (low, align, end, most, limit) = fits in
      omega (arith, row_end-append a ls (vacant k ∷ rs))

  apart : (x : ℕ) → In x xs → (x + 32 ≤ b) ⊎ (b + k ≤ x)
  apart x i = outer-apart lib ls rs (b + k) false s shape.0 x ((same x).0 i)

  linkable : (x : ℕ) → In x (b ∷ xs) → Linkable lib ls rs (b + k) x
  linkable x (inl e) = let z = sized in inl (omega arith, omega arith)
  linkable x (inr i) = outer-Linkable lib ls rs (b + k) x ((same x).0 i)

  Placed-all : Placed (b ∷ xs)
  Placed-all =
      let z = sized in
      let f = behind in
      (
        omega (arith, row_end-le (b + k) rs),
        AllApart-of b xs (λ x i. let o = apart x i in ground arith),
        placed,
      )

  outside : (x w : ℕ) → (w ≡ b) ⊎ (w ≡ b + k - 8) → In x (b ∷ xs) → Outside w x
  outside x w out (inl e) = let z = sized in ground arith
  outside x w out (inr i) = let z = sized in let o = apart x i in ground arith

  kept : (w v : ℕ) → (w ≡ b) ⊎ (w ≡ b + k - 8) → load s w ≡ v → load t w ≡ v
  kept w v out e = load-add s w b xs shape.1 (λ x i. outside x w out i) ∙ e

  all : vacancies a bs ≡ vacancies a ls ++ b ∷ vacancies (b + k) rs
  all = vacancies-append a ls (vacant k ∷ rs)

  pub IsHeap-listed :
      load s b ≡ k + flag (last_used true ls)
      → load s (b + k - 8) ≡ k
      → (t.lib ≡ lib) × IsHeap t bs (b ∷ xs)
  IsHeap-listed header footer =
      let (low, align, end, most, limit) = fits in
      let ((same_lib, left, right), linked) =
        Shape-add lib ls rs (b + k) (let z = sized in omega arith) false s b xs
          (omega (arith, row_end-le a ls)) Placed-all linkable shape in
      (
        same_lib,
        record {
          fits = subst (λ l. Fits l bs) (sym same_lib) fits;
          runs =
              subst (λ l. Runs t.mem true (l.heap + 8) bs) (sym same_lib)
                (Runs-append t.mem true a ls (vacant k ∷ rs) left (
                  (
                    (
                      sized,
                      kept b (k + flag (last_used true ls)) (inl refl) header,
                      kept (b + k - 8) k (inr refl) footer,
                    ),
                    right.0,
                  ),
                  right.1,
                ));
          linked = linked;
          placed = Placed-all;
          same =
              subst (λ l. Same (b ∷ xs) (vacancies (l.heap + 8) bs)) (sym same_lib)
                (subst (Same (b ∷ xs)) (sym all)
                  (Same-cons b xs (vacancies a ls) (vacancies (b + k) rs) same));
          counted =
              subst (λ l. length (b ∷ xs) ≡ length (vacancies (l.heap + 8) bs)) (sym same_lib)
                (length-cons b xs (vacancies a ls) (vacancies (b + k) rs) counted
                  ∙ ap length (sym all));
        },
      )
