-- ===== src/Sampler/Best.antt =====
-- The array of the sampler holds the best samples so far, in order.
use cmpsc_473_operating_syst.Common.{
  ℕ, zero, suc, ◌≤◌, ◌<◌, ◌≡◌, refl, ap, inl, inr, arith, true, false, List, [], ◌∷◌, ◌++◌, ltb,
  if◌then◌else◌, Bool-cases, length,
}

-- A value put behind those that are not greater.
abbrev pub insert : ℕ → List ℕ → List ℕ
insert v [] = v ∷ []
insert v (y ∷ ys) = if ltb v y then v ∷ y ∷ ys else y ∷ insert v ys

abbrev pub take : ℕ → List ℕ → List ℕ
take zero xs = []
take (suc n) [] = []
take (suc n) (x ∷ xs) = x ∷ take n xs

-- Samples in order, the first one last in the list.
abbrev pub sorted : List ℕ → List ℕ
sorted [] = []
sorted (v ∷ vs) = insert v (sorted vs)

abbrev pub AllLe : List ℕ → ℕ → Type 0
AllLe [] v = Unit {0}
AllLe (y ∷ ys) v = (y ≤ v) × AllLe ys v

abbrev pub AllGe : ℕ → List ℕ → Type 0
AllGe x [] = Unit {0}
AllGe x (y ∷ ys) = (x ≤ y) × AllGe x ys

-- In order.
abbrev pub IsSorted : List ℕ → Type 0
IsSorted [] = Unit {0}
IsSorted (x ∷ xs) = AllGe x xs × IsSorted xs

AllGe-insert : (x v : ℕ) (ys : List ℕ) → x ≤ v → AllGe x ys → AllGe x (insert v ys)
AllGe-insert x v [] le h = (le, tt)
AllGe-insert x v (y ∷ ys) le (le', h) = elim (Bool-cases (ltb v y)) [
  | inl less ↦ rw less (le, (le', h))
  | inr more ↦ rw more (le', AllGe-insert x v ys le h)
]

AllGe-trans : (v x : ℕ) (ys : List ℕ) → v ≤ x → AllGe x ys → AllGe v ys
AllGe-trans v x [] le h = tt
AllGe-trans v x (y ∷ ys) le (le', h) = (omega arith, AllGe-trans v x ys le h)

insert-IsSorted : (v : ℕ) (xs : List ℕ) → IsSorted xs → IsSorted (insert v xs)
insert-IsSorted v [] h = (tt, tt)
insert-IsSorted v (x ∷ xs) (le, h) = elim (Bool-cases (ltb v x)) [
  | inl less ↦
      let below : v ≤ x = ground arith in rw less ((below, AllGe-trans v x xs below le), (le, h))
  | inr more ↦ rw more (AllGe-insert x v xs (ground arith) le, insert-IsSorted v xs h)
]

pub sorted-IsSorted : (vs : List ℕ) → IsSorted (sorted vs)
sorted-IsSorted [] = tt
sorted-IsSorted (v ∷ vs) = insert-IsSorted v (sorted vs) (sorted-IsSorted vs)

AllGe-take : (x n : ℕ) (ys : List ℕ) → AllGe x ys → AllGe x (take n ys)
AllGe-take x zero ys h = tt
AllGe-take x (suc n) [] h = tt
AllGe-take x (suc n) (y ∷ ys) (le, h) = (le, AllGe-take x n ys h)

pub take-IsSorted : (n : ℕ) (xs : List ℕ) → IsSorted xs → IsSorted (take n xs)
take-IsSorted zero xs h = tt
take-IsSorted (suc n) [] h = tt
take-IsSorted (suc n) (x ∷ xs) (le, h) = (AllGe-take x n xs le, take-IsSorted n xs h)

AllGe-snoc : (x y : ℕ) (ys : List ℕ) → AllGe x (ys ++ y ∷ []) → x ≤ y
AllGe-snoc x y [] (le, h) = le
AllGe-snoc x y (z ∷ ys) (le, h) = AllGe-snoc x y ys h

AllGe-left : (x y : ℕ) (ys : List ℕ) → AllGe x (ys ++ y ∷ []) → AllGe x ys
AllGe-left x y [] h = tt
AllGe-left x y (z ∷ ys) (le, h) = (le, AllGe-left x y ys h)

-- Of a list in order without its last value.
pub IsSorted-snoc : (y : ℕ) (ys : List ℕ) → IsSorted (ys ++ y ∷ []) → AllLe ys y × IsSorted ys
IsSorted-snoc y [] h = (tt, tt)
IsSorted-snoc y (x ∷ ys) (le, h) =
    let (below, rest) = IsSorted-snoc y ys h in
    ((AllGe-snoc x y ys le, below), (AllGe-left x y ys le, rest))

pub insert-AllLe : (v : ℕ) (ys : List ℕ) → AllLe ys v → insert v ys ≡ ys ++ v ∷ []
insert-AllLe v [] h = refl
insert-AllLe v (y ∷ ys) (le, h) =
    let more : ltb v y ≡ false = ground arith in rw more (ap (λ t. y ∷ t) (insert-AllLe v ys h))

pub insert-snoc : (v y : ℕ) (ys : List ℕ) → v < y → insert v (ys ++ y ∷ []) ≡ insert v ys ++ y ∷ []
insert-snoc v y [] less = let e : ltb v y ≡ true = ground arith in rw e refl
insert-snoc v y (z ∷ ys) less = elim (Bool-cases (ltb v z)) [
  | inl below ↦ rw below refl
  | inr above ↦ rw above (ap (λ t. z ∷ t) (insert-snoc v y ys less))
]

pub AllLe-trans : (ys : List ℕ) (y v : ℕ) → AllLe ys y → y ≤ v → AllLe ys v
AllLe-trans [] y v h le = tt
AllLe-trans (x ∷ ys) y v (le', h) le = (omega arith, AllLe-trans ys y v h le)

pub length-insert : (v : ℕ) (ys : List ℕ) → length (insert v ys) ≡ suc (length ys)
length-insert v [] = refl
length-insert v (y ∷ ys) = elim (Bool-cases (ltb v y)) [
  | inl less ↦ rw less refl
  | inr more ↦ rw more (ap suc (length-insert v ys))
]

take-take_suc : (n : ℕ) (y : ℕ) (ys : List ℕ) → take n (y ∷ take n ys) ≡ take n (y ∷ ys)
take-take_suc zero y ys = refl
take-take_suc (suc n) y [] = refl
take-take_suc (suc n) y (z ∷ ys) = ap (λ t. y ∷ t) (take-take_suc n z ys)

-- Only the best of the values before matter for the best of all.
pub take-insert : (n v : ℕ) (xs : List ℕ) → take n (insert v (take n xs)) ≡ take n (insert v xs)
take-insert zero v xs = refl
take-insert (suc n) v [] = refl
take-insert (suc n) v (x ∷ xs) = elim (Bool-cases (ltb v x)) [
  | inl less ↦ rw less (ap (λ t. v ∷ t) (take-take_suc n x xs))
  | inr more ↦ rw more (ap (λ t. x ∷ t) (take-insert n v xs))
]
