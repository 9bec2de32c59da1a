-- ===== src/Malloc/Members.antt =====
-- Taking a member out of lists of blocks that do not overlap.
use cmpsc_473_operating_syst.Common.{
  ℕ, ◌≡◌, refl, ◌⊎◌, inl, inr, arith, List, [], ◌∷◌, ◌++◌, length, length-append,
}
use mathlib.Core.Path.{subst}
use cmpsc_473_operating_syst.Malloc.FreeList.{Placed}
use cmpsc_473_operating_syst.Malloc.Vacancies.{
  In, Same, In-append, In-left, In-right, AllApart-In, AllApart-of,
}

abbrev pub NotIn : ℕ → List ℕ → Type 0
NotIn x xs = In x xs → ⊥

-- A member of a list is one of the others, or the one in the middle.
pub In-middle : (x b : ℕ) (ys zs : List ℕ) → In x (ys ++ b ∷ zs) → (x ≡ b) ⊎ In x (ys ++ zs)
In-middle x b ys zs i = elim (In-append x ys (b ∷ zs) i) [
  | inl l ↦ inr (In-left x ys zs l)
  | inr (inl e) ↦ inl e
  | inr (inr r) ↦ inr (In-right x ys zs r)
]

pub In-around : (x b : ℕ) (ys zs : List ℕ) → In x (ys ++ zs) → In x (ys ++ b ∷ zs)
In-around x b ys zs i = elim (In-append x ys zs i) [
  | inl l ↦ In-left x ys (b ∷ zs) l
  | inr r ↦ In-right x ys (b ∷ zs) (inr r)
]

pub Placed-around : (b : ℕ) (ys zs : List ℕ) → Placed (ys ++ b ∷ zs) → Placed (ys ++ zs)
Placed-around b [] zs (within, apart, placed) = placed
Placed-around b (y ∷ ys) zs (within, apart, placed) = (
  within,
  AllApart-of y (ys ++ zs) (λ x i. AllApart-In y x (ys ++ b ∷ zs) apart (In-around x b ys zs i)),
  Placed-around b ys zs placed,
)

-- No block stands in the list twice.
pub Placed-NotIn : (b : ℕ) (ys zs : List ℕ) → Placed (ys ++ b ∷ zs) → NotIn b (ys ++ zs)
Placed-NotIn b [] zs (within, apart, placed) i = absurd (ground (arith, AllApart-In b b zs apart i))
Placed-NotIn b (y ∷ ys) zs (within, apart, placed) (inl e) =
    absurd
      (ground (arith, AllApart-In y b (ys ++ b ∷ zs) apart (In-right b ys (b ∷ zs) (inl refl))))
Placed-NotIn b (y ∷ ys) zs (within, apart, placed) (inr i) = Placed-NotIn b ys zs placed i

Same_half :
    (b : ℕ) (ys zs ps qs : List ℕ)
    → ((x : ℕ) → In x (ys ++ b ∷ zs) → In x (ps ++ b ∷ qs))
    → NotIn b (ys ++ zs)
    → (x : ℕ) → In x (ys ++ zs)
    → In x (ps ++ qs)
Same_half b ys zs ps qs all out x i = elim (In-middle x b ps qs (all x (In-around x b ys zs i))) [
  | inl e ↦ absurd (out (subst (λ t. In t (ys ++ zs)) e i))
  | inr j ↦ j
]

pub Same-around :
    (b : ℕ) (ys zs ps qs : List ℕ)
    → Same (ys ++ b ∷ zs) (ps ++ b ∷ qs)
    → NotIn b (ys ++ zs)
    → NotIn b (ps ++ qs)
    → Same (ys ++ zs) (ps ++ qs)
Same-around b ys zs ps qs same out out' x = (
  Same_half b ys zs ps qs (λ y. (same y).0) out x,
  Same_half b ps qs ys zs (λ y. (same y).1) out' x,
)

-- A new first member, which the other list has in the middle.
pub Same-cons : (b : ℕ) (xs ps qs : List ℕ) → Same xs (ps ++ qs) → Same (b ∷ xs) (ps ++ b ∷ qs)
Same-cons b xs ps qs same x = (into, out)
  where
    into : In x (b ∷ xs) → In x (ps ++ b ∷ qs)
    into (inl e) = In-right x ps (b ∷ qs) (inl e)
    into (inr i) = In-around x b ps qs ((same x).0 i)

    out : In x (ps ++ b ∷ qs) → In x (b ∷ xs)
    out i = elim (In-middle x b ps qs i) [ inl e ↦ inl e | inr j ↦ inr ((same x).1 j) ]

pub length-around :
    (b : ℕ) (ys zs ps qs : List ℕ)
    → length (ys ++ b ∷ zs) ≡ length (ps ++ b ∷ qs)
    → length (ys ++ zs) ≡ length (ps ++ qs)
length-around b ys zs ps qs e = omega (
  arith,
  length-append ys (b ∷ zs),
  length-append ps (b ∷ qs),
  length-append ys zs,
  length-append ps qs,
)

pub length-cons :
    (b : ℕ) (xs ps qs : List ℕ)
    → length xs ≡ length (ps ++ qs)
    → length (b ∷ xs) ≡ length (ps ++ b ∷ qs)
length-cons b xs ps qs e = omega (arith, length-append ps (b ∷ qs), length-append ps qs)

-- The middle part to the front.
In-front : (x : ℕ) (fs ns bs : List ℕ) → In x (fs ++ (ns ++ bs)) → In x (ns ++ (fs ++ bs))
In-front x fs ns bs i = elim (In-append x fs (ns ++ bs) i) [
  | inl a ↦ In-right x ns (fs ++ bs) (In-left x fs bs a)
  | inr j ↦ elim (In-append x ns bs j) [
    | inl n ↦ In-left x ns (fs ++ bs) n
    | inr b ↦ In-right x ns (fs ++ bs) (In-right x fs bs b)
  ]
]

pub Same-front : (xs fs ns bs : List ℕ) → Same xs (fs ++ (ns ++ bs)) → Same xs (ns ++ (fs ++ bs))
Same-front xs fs ns bs same x =
    (λ i. In-front x fs ns bs ((same x).0 i), λ i. (same x).1 (In-front x ns fs bs i))

pub length-front : (fs ns bs : List ℕ) → length (fs ++ (ns ++ bs)) ≡ length (ns ++ (fs ++ bs))
length-front fs ns bs = omega (
  arith,
  length-append fs (ns ++ bs),
  length-append ns bs,
  length-append ns (fs ++ bs),
  length-append fs bs,
)
