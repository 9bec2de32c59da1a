-- ===== src/Homework/Kobject/Counts.antt =====
-- The reference counts of kernel objects.
use cmpsc_473_operating_syst.Common.{
  ℕ, suc, ◌+◌, ◌≤◌, ◌<◌, ◌≡◌, ◌≢◌, refl, sym, ap, ◌∙◌, ◌⊎◌, inl, inr, true, false, Option, none,
  some, List, [], ◌∷◌, arith, ◌==◌, ==_iff, ltb, if◌then◌else◌, Bool-cases, length,
}
use mathlib.Core.Path.{subst}
use mathlib.Core.Option.{some-injective}
use cmpsc_473_operating_syst.Heap.{Ptr, null}
use cmpsc_473_operating_syst.Outcome.{ok, Succeeds, succeeds}
use cmpsc_473_operating_syst.Homework.Kobject.{
  Name, Kobject, Store, take, put, int_max, get_reference, kobject_init,
}

abbrev pub In : Ptr → List Ptr → Type 0
In a [] = ⊥
In a (x ∷ xs) = (a ≡ x) ⊎ In a xs

abbrev pub is_child : Ptr → Option Kobject → ℕ
is_child p none = 0
is_child p (some k) = if k.parent == p then 1 else 0

-- How many of some objects have the parent `p`.
abbrev pub children : Ptr → List Ptr → Store → ℕ
children p [] st = 0
children p (a ∷ objects) st = is_child p (st a) + children p objects st

-- An object of a hierarchy: its count is one and the number of its children, and its parent, if it has
-- one, is in the hierarchy.
abbrev pub Counted : List Ptr → Store → Ptr → Type 0
Counted objects st a =
    (k : Kobject) × (st a ≡ some k)
    × (a ≢ null)
    × (k.refcount ≡ 1 + children a objects st)
    × ((k.parent ≡ null) ⊎ In k.parent objects)

abbrev pub IsHierarchy : List Ptr → Store → Type 0
IsHierarchy objects st = (a : Ptr) → In a objects → Counted objects st a

children-le : (p : Ptr) (objects : List Ptr) (st : Store) → children p objects st ≤ length objects
children-le p [] st = omega arith
children-le p (a ∷ objects) st = omega (arith, one (st a), children-le p objects st)
  where
    one : (o : Option Kobject) → is_child p o ≤ 1
    one none = omega arith
    one (some k) = ground arith

children-same :
    (p : Ptr) (objects : List Ptr) (st st' : Store)
    → ((a : Ptr) → In a objects → is_child p (st' a) ≡ is_child p (st a))
    → children p objects st' ≡ children p objects st
children-same p [] st st' h = refl
children-same p (a ∷ objects) st st' h =
    omega (arith, h a (inl refl), children-same p objects st st' (λ b i. h b (inr i)))

-- What `kobject_init` makes of the store, for the objects that were there.
abbrev After : Ptr → Name → Ptr → List Ptr → Store → Store → Type 0
After kobj name parent objects st st' =
    (st' kobj ≡ some (record { name = take 50 name; parent = parent; refcount = 1 }))
    × ((a : Ptr) (k : Kobject)
        → In a objects
        → st a ≡ some k
        → (k' : Kobject) × (st' a ≡ some k')
          × (k'.parent ≡ k.parent)
          × (k'.refcount ≡ k.refcount + (if parent == a then 1 else 0)))

get_reference-ok :
    (p : Ptr) (k : Kobject) (st : Store)
    → st p ≡ some k
    → ltb k.refcount int_max ≡ true
    → get_reference p st ≡ ok (put p (record k { refcount = k.refcount + 1 }) st)
unfolding get_reference
get_reference-ok p k st at low = rw (get_reference, at, low) refl

module _ (kobj : Ptr) (name : Name) (parent : Ptr) (objects : List Ptr) (st : Store)
    (h : IsHierarchy objects st) (new : In kobj objects → ⊥) (some_place : kobj ≢ null)
    (known : (parent ≡ null) ⊎ In parent objects) where
  apart : parent ≢ kobj
  apart e = elim known [
    | inl nothing ↦ some_place (sym e ∙ nothing)
    | inr i ↦ new (subst (λ p. In p objects) e i)
  ]

  -- Nothing refers to the new object yet.
  no_children : (xs : List Ptr) → ((a : Ptr) → In a xs → In a objects) → children kobj xs st ≡ 0
  no_children [] f = refl
  no_children (a ∷ xs) f =
      let (k, at, ne, counts, up) = h a (f a (inl refl)) in
      let other : k.parent ≢ kobj = λ e. elim up [
        | inl nothing ↦ some_place (sym e ∙ nothing)
        | inr i ↦ new (subst (λ p. In p objects) e i)
      ] in
      let none_here : is_child kobj (st a) ≡ 0 = ap (is_child kobj) at ∙ ground arith in
      omega (arith, none_here, no_children xs (λ b i. f b (inr i)))

  module _ (st' : Store) (made : After kobj name parent objects st st') where
    kept : (p : Ptr) → children p objects st' ≡ children p objects st
    kept p = children-same p objects st st' λ a i.
        let (k, at, ne, counts, up) = h a i in
        let (k', at', same, counts') = made.1 a k i at in
        ap (is_child p) at'
        ∙ ap (λ (q : Ptr). if q == p then 1 else 0) same
        ∙ sym (ap (is_child p) at)

    After-IsHierarchy : IsHierarchy (kobj ∷ objects) st'
    After-IsHierarchy a (inl e) =
        let self : is_child kobj (st' kobj) ≡ 0 =
          ap (is_child kobj) made.0
          ∙ (let no : (parent == kobj) ≡ false = ground (arith, apart) in rw no refl) in
        let up : (parent ≡ null) ⊎ In parent (kobj ∷ objects) = elim known [
          | inl nothing ↦ inl nothing
          | inr i ↦ inr (inr i)
        ] in
        subst (Counted (kobj ∷ objects) st') (sym e) (
          record { name = take 50 name; parent = parent; refcount = 1 },
          made.0,
          some_place,
          omega (arith, self, kept kobj, no_children objects (λ b i. i)),
          up,
        )
    After-IsHierarchy a (inr i) =
        let (k, at, ne, counts, up) = h a i in
        let (k', at', same, counts') = made.1 a k i at in
        let first : is_child a (st' kobj) ≡ (if parent == a then 1 else 0) =
          ap (is_child a) made.0 in
        let up' : (k'.parent ≡ null) ⊎ In k'.parent (kobj ∷ objects) = elim up [
          | inl nothing ↦ inl (same ∙ nothing)
          | inr j ↦ inr (inr (subst (λ p. In p objects) (sym same) j))
        ] in
        (k', at', ne, omega (arith, counts', counts, first, kept a), up')

  abbrev made : Kobject
  made = record { name = take 50 name; parent = parent; refcount = 1 }

  elsewhere : (a : Ptr) → In a objects → (a == kobj) ≡ false
  elsewhere a i = elim (Bool-cases (a == kobj)) [
    | inl hit ↦ absurd (new (subst (λ p. In p objects) ((==_iff a kobj).0 hit) i))
    | inr miss ↦ miss
  ]

  there : put kobj made st kobj ≡ some made
  there = let same = (==_iff kobj kobj).1 refl in rw same refl

  before : (a : Ptr) → In a objects → put kobj made st a ≡ st a
  before a i = let other = elsewhere a i in rw other refl

  After-put : parent ≡ null → After kobj name parent objects st (put kobj made st)
  After-put nothing = (
    there,
    λ a k i at.
        let (k', at', ne, counts, up) = h a i in
        let no : (parent == a) ≡ false = ground (arith, nothing, ne) in
        (k, before a i ∙ at, refl, rw no (omega arith)),
  )

  After-count :
      (p : Kobject)
      → In parent objects
      → st parent ≡ some p
      → After kobj name parent objects st
          (put parent (record p { refcount = p.refcount + 1 }) (put kobj made st))
  After-count p j at_parent = (
    (let no : (kobj == parent) ≡ false = ground (arith, apart) in rw no there),
    λ a k i at. elim (Bool-cases (a == parent)) [
      | inl hit ↦
          let same : a ≡ parent = (==_iff a parent).0 hit in
          let one : (parent == a) ≡ true = (==_iff parent a).1 (sym same) in
          let it : k ≡ p = some-injective _ _ (sym at ∙ ap st same ∙ at_parent) in
          (record p { refcount = p.refcount + 1 }, rw hit refl, rw it refl, rw (one, it) refl)
      | inr miss ↦
          let no : (parent == a) ≡ false = ground arith in
          (k, rw miss (before a i ∙ at), refl, rw no (omega arith))
    ],
  )

  -- A new object at an address of its own, whose parent, if it has one, is in the hierarchy of fewer
  -- than 2^31 - 2 objects: `kobject_init` succeeds, and every count of the hierarchy with the new object
  -- is one and the number of the children.
  pub kobject_init-IsHierarchy :
      suc (length objects) < int_max
      → Succeeds (IsHierarchy (kobj ∷ objects)) (kobject_init kobj name parent st)
  unfolding kobject_init
  kobject_init-IsHierarchy few = elim known [
    | inl nothing ↦
        let alone : (parent == null) ≡ true = (==_iff parent null).1 nothing in
        rw alone (succeeds (After-IsHierarchy _ (After-put nothing)))
    | inr i ↦
        let (p, at, ne, counts, up) = h parent i in
        let has_parent : (parent == null) ≡ false = ground (arith, ne) in
        let low : ltb p.refcount int_max ≡ true =
          ground (arith, counts, few, children-le parent objects st) in
        rw (has_parent, get_reference-ok parent p (put kobj made st) (before parent i ∙ at) low)
          (succeeds (After-IsHierarchy _ (After-count p i at)))
  ]
