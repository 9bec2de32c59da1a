-- ===== src/Homework/Kobject.antt =====
-- homework-1-FreezeKickerz/kobject.h and kobject.c: counted kernel objects, sets, devices, buses and
-- bridges. Objects live at addresses of a store, wherever they are embedded; an access to no object
-- is a fault. Names are lists of characters, and what is printed is a list of lines.
pub mod Counts
mod Tests
use cmpsc_473_operating_syst.Common.{
  ℕ, zero, suc, ◌+◌, ◌≡◌, ◌≢◌, refl, Bool, Option, none, some, List, [], ◌∷◌, ◌++◌, arith, ◌==◌,
  ltb, if◌then◌else◌, false,
}
use cmpsc_473_operating_syst.Heap.{Ptr, null}
use cmpsc_473_operating_syst.Outcome.{Outcome, ok, fault, ◌>>=◌, Succeeds, succeeds}

abbrev pub Name : Type 0
Name = List ℕ

-- `struct kobject`; `release` is always NULL, and `refcount` is an `int` that starts from 1 and only
-- grows.
pub record Kobject : Type 0 where
  pub name : Name
  pub parent : Ptr
  pub refcount : ℕ

abbrev pub Store : Type 0
Store = Ptr → Option Kobject

-- `struct kset`, with the address of its object.
pub record Kset : Type 0 where
  pub name : Name
  pub kobj : Ptr
  pub members : List Ptr

-- `struct Bus`; `bridge` is the address of the object of its bridge.
pub record Bus : Type 0 where
  pub kset : Kset
  pub bridge : Ptr

-- A line of output.
pub data Line : Type 0 where
  hierarchy : Name → Line
  object : (level : ℕ) → Name → Line
  added : Name → Name → Line
  initialized_device initialized_bus : Name → Line

-- `strncpy`: what fits in the array of 50 characters.
unfoldable pub take : ℕ → Name → Name
take zero name = []
take (suc n) [] = []
take (suc n) (c ∷ name) = c ∷ take n name

abbrev pub put : Ptr → Kobject → Store → Store
put p k st a = if a == p then some k else st a

abbrev pub int_max : ℕ
int_max = 2147483647

-- `parent->refcount++`; the overflow of an `int` is undefined.
unfoldable pub get_reference : Ptr → Store → Outcome Store
get_reference p st = elim (st p) [
  | none ↦ fault
  | some k ↦
      if ltb k.refcount int_max
      then ok (put p (record k { refcount = k.refcount + 1 }) st)
      else fault
]

unfoldable pub kobject_init : Ptr → Name → Ptr → Store → Outcome Store
unfolding take get_reference
kobject_init kobj name parent st =
    let st' = put kobj (record { name = take 50 name; parent = parent; refcount = 1 }) st in
    if parent == null then ok st' else get_reference parent st'

unfoldable pub kset_init : Ptr → Name → Ptr → Store → Outcome (Kset × Store)
unfolding kobject_init
kset_init kobj name parent st = do
  st' ← kobject_init kobj name parent st
  ok (record { name = take 50 name; kobj = kobj; members = [] }, st')

-- `realloc` is taken to give the array.
unfoldable pub kset_add : Kset → Ptr → Store → Outcome (Kset × List Line)
kset_add kset kobj st = elim (st kobj) [
  | none ↦ fault
  | some k ↦ ok (record kset { members = kset.members ++ kobj ∷ [] }, added k.name kset.name ∷ [])
]

unfoldable pub device_init : Ptr → Name → Ptr → Store → Outcome (Store × List Line)
unfolding kobject_init
device_init kobj name parent st = do
  st' ← kobject_init kobj name parent st
  ok (st', initialized_device name ∷ [])

unfoldable pub bus_init : Ptr → Name → Store → Outcome (Bus × Store × List Line)
unfolding kset_init
bus_init kobj name st = do
  (kset, st') ← kset_init kobj name null st
  ok (record { kset = kset; bridge = null }, st', initialized_bus name ∷ [])

unfoldable pub bus_add_device : Bus → Ptr → Store → Outcome (Bus × List Line)
unfolding kset_add
bus_add_device bus device st = do
  (kset, lines) ← kset_add bus.kset device st
  ok (record bus { kset = kset }, lines)

-- With the object, for what the caller reads of it next.
unfoldable pub print_hierarchy : Ptr → ℕ → Store → Outcome (Kobject × List Line)
print_hierarchy kobj level st = elim (st kobj) [
  | none ↦ fault
  | some k ↦ ok (k, object level k.name ∷ [])
]

-- An object and, if it has one, its parent a level further in.
unfoldable pub print_with_parent : Ptr → ℕ → Store → Outcome (Kobject × List Line)
unfolding print_hierarchy
print_with_parent kobj level st = do
  (k, lines) ← print_hierarchy kobj level st
  (if k.parent == null
      then ok (k, lines)
      else (do (p, more) ← print_hierarchy k.parent (level + 1) st; ok (k, lines ++ more)))

-- The loop over the members.
unfoldable pub print_members : Bus → List Ptr → Store → Outcome (List Line)
unfolding print_with_parent
print_members bus [] st = ok []
print_members bus (child ∷ members) st = do
  (k, lines) ← print_with_parent child 1 st
  bridged ←
      (if bus.bridge == null
        then ok []
        else if k.parent == bus.kset.kobj
        then (do (b, more) ← print_with_parent bus.bridge 3 st; ok more)
        else ok [])
  rest ← print_members bus members st
  ok (lines ++ bridged ++ rest)

unfoldable pub bus_print_hierarchy : Bus → Store → Outcome (List Line)
unfolding print_members
bus_print_hierarchy bus st = do
  (k, lines) ← print_hierarchy bus.kset.kobj 0 st
  bridge ←
      (if bus.bridge == null
        then ok []
        else (do (b, more) ← print_with_parent bus.bridge 1 st; ok more))
  rest ← print_members bus bus.kset.members st
  ok (hierarchy bus.kset.name ∷ hierarchy bus.kset.name ∷ lines ++ bridge ++ rest)

unfoldable pub bridge_init : Ptr → Name → Bus → Store → Outcome (Store × List Line)
unfolding kobject_init
bridge_init kobj name parent_bus st = do
  st' ← kobject_init kobj name parent_bus.kset.kobj st
  ok (st', initialized_device name ∷ [])
