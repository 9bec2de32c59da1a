-- ===== src/Malloc/Vacancies.antt =====
-- The free blocks of a row, and the list that leads through them.
use cmpsc_473_operating_syst.Common.{
  ℕ, ◌+◌, ◌≤◌, ◌≡◌, refl, ap, sym, ◌⊎◌, inl, inr, arith, Bool, true, false, List, [], ◌∷◌, ◌++◌,
  length, leb, if◌then◌else◌,
}
use cmpsc_473_operating_syst.Memlib.{Memory}
use cmpsc_473_operating_syst.Malloc.{Mm, load, size_of}
use cmpsc_473_operating_syst.Malloc.FreeList.{Apart, AllApart, first_fit}
use cmpsc_473_operating_syst.Malloc.Blocks.{
  vacant, used, Row, row_end, vacancies, Tiled, Loose, row_end-le, Loose-below,
}

abbrev pub In : ℕ → List ℕ → Type 0
In x [] = ⊥
In x (y ∷ ys) = (x ≡ y) ⊎ In x ys

-- The same members.
abbrev pub Same : List ℕ → List ℕ → Type 0
Same xs ys = (x : ℕ) → (In x xs → In x ys) × (In x ys → In x xs)

pub In-append : (x : ℕ) (xs ys : List ℕ) → In x (xs ++ ys) → In x xs ⊎ In x ys
In-append x [] ys h = inr h
In-append x (y ∷ xs) ys (inl e) = inl (inl e)
In-append x (y ∷ xs) ys (inr h) = elim (In-append x xs ys h) [ inl l ↦ inl (inr l) | inr r ↦ inr r ]

pub In-left : (x : ℕ) (xs ys : List ℕ) → In x xs → In x (xs ++ ys)
In-left x [] ys h = elim h [ ]
In-left x (y ∷ xs) ys (inl e) = inl e
In-left x (y ∷ xs) ys (inr h) = inr (In-left x xs ys h)

pub In-right : (x : ℕ) (xs ys : List ℕ) → In x ys → In x (xs ++ ys)
In-right x [] ys h = h
In-right x (y ∷ xs) ys h = inr (In-right x xs ys h)

-- A member stands somewhere.
pub In-split : (x : ℕ) (xs : List ℕ) → In x xs → (ys zs : List ℕ) × (xs ≡ ys ++ x ∷ zs)
In-split x [] h = elim h [ ]
In-split x (y ∷ xs) (inl e) = ([], xs, ap (λ t. t ∷ xs) (sym e))
In-split x (y ∷ xs) (inr h) = let (ys, zs, e) = In-split x xs h in (y ∷ ys, zs, ap (λ t. y ∷ t) e)

-- A free block of a row lies within it.
pub vacancies_within :
    (mem : Memory) (u : Bool) (a x : ℕ) (bs : Row)
    → Tiled mem u a bs
    → In x (vacancies a bs)
    → (a ≤ x) × (x + 32 ≤ row_end a bs)
vacancies_within mem u a x [] t h = elim h [ ]
vacancies_within mem u a x (vacant k ∷ bs) ((sized, header, rest), t) (inl e) =
    (omega arith, omega (arith, row_end-le (a + k) bs))
vacancies_within mem u a x (vacant k ∷ bs) ((sized, header, rest), t) (inr h) =
    omega (arith, vacancies_within mem false (a + k) x bs t h)
vacancies_within mem u a x (used k c ∷ bs) ((sized, header, rest), t) h =
    omega (arith, vacancies_within mem true (a + k) x bs t h)

-- The links of a free block may be written.
pub Loose-links :
    (mem : Memory) (u : Bool) (a x w : ℕ) (bs : Row)
    → Tiled mem u a bs
    → In x (vacancies a bs)
    → (w ≡ x + 8) ⊎ (w ≡ x + 16)
    → Loose w a bs
Loose-links mem u a x w [] t h which = elim h [ ]
Loose-links mem u a x w (vacant k ∷ bs) ((sized, header, rest), t) (inl e) which =
    (ground arith, Loose-below w (a + k) bs (ground arith))
Loose-links mem u a x w (vacant k ∷ bs) ((sized, header, rest), t) (inr h) which =
    let (low, high) = vacancies_within mem false (a + k) x bs t h in
    (inr (inr (ground arith)), Loose-links mem false (a + k) x w bs t h which)
Loose-links mem u a x w (used k c ∷ bs) ((sized, header, rest), t) h which =
    let (low, high) = vacancies_within mem true (a + k) x bs t h in
    (inr (ground arith), Loose-links mem true (a + k) x w bs t h which)

-- The free block at an address of the list.
pub vacancies-split :
    (a x : ℕ) (bs : Row)
    → In x (vacancies a bs)
    → (ls : Row) × (k : ℕ) × (rs : Row) × (bs ≡ ls ++ vacant k ∷ rs) × (row_end a ls ≡ x)
vacancies-split a x [] h = elim h [ ]
vacancies-split a x (vacant k ∷ bs) (inl e) = ([], k, bs, refl, sym e)
vacancies-split a x (vacant k ∷ bs) (inr h) =
    let (ls, j, rs, e, at) = vacancies-split (a + k) x bs h in
    (vacant k ∷ ls, j, rs, ap (λ t. vacant k ∷ t) e, at)
vacancies-split a x (used k c ∷ bs) h =
    let (ls, j, rs, e, at) = vacancies-split (a + k) x bs h in
    (used k c ∷ ls, j, rs, ap (λ t. used k c ∷ t) e, at)

pub length-vacancies :
    (mem : Memory) (u : Bool) (a : ℕ) (bs : Row)
    → Tiled mem u a bs
    → a + length (vacancies a bs) ≤ row_end a bs
length-vacancies mem u a [] t = omega arith
length-vacancies mem u a (vacant k ∷ bs) ((sized, header, rest), t) =
    omega (arith, length-vacancies mem false (a + k) bs t)
length-vacancies mem u a (used k c ∷ bs) ((sized, header, rest), t) =
    omega (arith, length-vacancies mem true (a + k) bs t)

pub AllApart-In : (x y : ℕ) (ys : List ℕ) → AllApart x ys → In y ys → Apart x y
AllApart-In x y [] a h = elim h [ ]
AllApart-In x y (z ∷ ys) (a, rest) (inl e) = ground arith
AllApart-In x y (z ∷ ys) (a, rest) (inr h) = AllApart-In x y ys rest h

pub AllApart-of : (x : ℕ) (ys : List ℕ) → ((y : ℕ) → In y ys → Apart x y) → AllApart x ys
AllApart-of x [] h = tt
AllApart-of x (y ∷ ys) h = (h y (inl refl), AllApart-of x ys (λ z i. h z (inr i)))

-- What first_fit finds is in the list and large enough, or it is NULL.
abbrev pub Found : ℕ → Mm → List ℕ → ℕ → Type 0
Found n s xs x = (x ≡ 0) ⊎ (In x xs × (n ≤ size_of (load s x)))

pub first_fit-Found : (n : ℕ) (s : Mm) (xs : List ℕ) → Found n s xs (first_fit n s xs)
first_fit-Found n s [] = inl refl
first_fit-Found n s (x ∷ xs) =
    let more : Found n s (x ∷ xs) (first_fit n s xs) = elim (first_fit-Found n s xs) [
      | inl e ↦ inl e
      | inr (h, l) ↦ inr (inr h, l)
    ] in
    elim (leb n (size_of (load s x)))
        as (λ b.
          leb n (size_of (load s x)) ≡ b → Found n s (x ∷ xs) (if b then x else first_fit n s xs)) [
            | true ↦ λ fits. inr (inl refl, ground arith)
            | false ↦ λ small. more
          ]
      refl
