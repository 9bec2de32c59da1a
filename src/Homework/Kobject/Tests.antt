-- ===== src/Homework/Kobject/Tests.antt =====
-- A device below a bus.
use cmpsc_473_operating_syst.Common.{
  refl, none, some, [], ◌∷◌, inl, inr, arith, ◌==◌, if◌then◌else◌,
}
use cmpsc_473_operating_syst.Outcome.{Succeeds}
use cmpsc_473_operating_syst.Homework.Kobject.{Kobject, Store, kobject_init}
use cmpsc_473_operating_syst.Homework.Kobject.Counts.{In, IsHierarchy, kobject_init-IsHierarchy}

-- A bus at 5 with a device at 6.
abbrev bus_object : Kobject
bus_object = record { name = 98 ∷ []; parent = 0; refcount = 2 }

abbrev device_object : Kobject
device_object = record { name = 99 ∷ []; parent = 5; refcount = 1 }

abbrev objects : Store
objects a = if a == 5 then some bus_object else if a == 6 then some device_object else none

objects-IsHierarchy : IsHierarchy (5 ∷ 6 ∷ []) objects
objects-IsHierarchy a (inl e) = rw e (bus_object, refl, (λ n. omega arith), refl, inl refl)
objects-IsHierarchy a (inr (inl e)) =
    rw e (device_object, refl, (λ n. omega arith), refl, inr (inl refl))
objects-IsHierarchy a (inr (inr i)) = absurd i

new_place : In 7 (5 ∷ 6 ∷ []) → ⊥
new_place (inl e) = omega arith
new_place (inr (inl e)) = omega arith
new_place (inr (inr i)) = i

kobject_init-IsHierarchy_example :
    Succeeds (IsHierarchy (7 ∷ 5 ∷ 6 ∷ [])) (kobject_init 7 (100 ∷ []) 5 objects)
kobject_init-IsHierarchy_example =
    kobject_init-IsHierarchy 7 (100 ∷ []) 5 (5 ∷ 6 ∷ []) objects objects-IsHierarchy new_place
      (λ e. omega arith) (inr (inl refl)) (omega arith)
