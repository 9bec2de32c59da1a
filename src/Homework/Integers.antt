-- ===== src/Homework/Integers.antt =====
-- homework-1-FreezeKickerz/polymorphic_ints.c and zla.c: sums of tagged unions, and arrays with a
-- flexible member. An `int` stands here for its bits, a number below 2 ^ 32; sums wrap around.
mod Tests
use mathlib.Core.Option
use cmpsc_473_operating_syst.Common.{
  ℕ, zero, suc, ◌+◌, ◌%◌, ◌^◌, ◌≤◌, ◌<◌, ◌≡◌, refl, ap, ◌∙◌, Bool, Option, none, some, List, [],
  ◌∷◌, ◌++◌, arith, if◌then◌else◌, length,
}

-- `TaggedUnion`
pub data TaggedUnion : Type 0 where
  int : ℕ → TaggedUnion
  char4 : ℕ → ℕ → ℕ → ℕ → TaggedUnion

-- `int` addition
abbrev pub add_int : ℕ → ℕ → ℕ
add_int a b = (a + b) % 2 ^ 32

-- `sum += ...`
unfoldable pub add_union : ℕ → TaggedUnion → ℕ
add_union sum (int n) = add_int sum n
add_union sum (char4 a b c d) = add_int sum (a + b + c + d)

-- The loop of `addTaggedUnions`, from `sum` on.
unfoldable pub add_from : ℕ → List TaggedUnion → ℕ
unfolding add_union
add_from sum [] = sum
add_from sum (u ∷ unions) = add_from (add_union sum u) unions

unfoldable pub add_tagged_unions : List TaggedUnion → ℕ
unfolding add_from
add_tagged_unions unions = add_from 0 unions

-- `ZeroLengthArray`: the elements of `data` for which there is room.
pub record ZeroLengthArray : Type 0 where
  pub size : ℕ
  pub elements : List ℕ

-- `contents` is what the memory from `malloc` holds, room for `num_elements` numbers.
unfoldable pub create_zero_length_array : (num_elements : ℕ) (contents : List ℕ) → ZeroLengthArray
create_zero_length_array num_elements contents = record { size = num_elements; elements = contents }

-- The loop of `set_values`, for the next `n` elements; `none` is a write or a read out of bounds.
unfoldable pub copy : (n : ℕ) (elements values : List ℕ) → Option (List ℕ)
copy zero elements values = some elements
copy (suc n) [] values = none
copy (suc n) (x ∷ elements) [] = none
copy (suc n) (x ∷ elements) (v ∷ values) = Option.map (◌∷◌ v) (copy n elements values)

unfoldable pub set_values : ZeroLengthArray → List ℕ → Option ZeroLengthArray
unfolding copy
set_values arr values =
    Option.map (λ elements. record arr { elements = elements }) (copy arr.size arr.elements values)

-- The number that a union stands for.
abbrev pub value : TaggedUnion → ℕ
value (int n) = n
value (char4 a b c d) = a + b + c + d

abbrev pub total : List TaggedUnion → ℕ
total [] = 0
total (u ∷ unions) = value u + total unions

add_from-total :
    (sum : ℕ) (unions : List TaggedUnion)
    → sum < 2 ^ 32
    → add_from sum unions ≡ (sum + total unions) % 2 ^ 32
unfolding add_from add_union
add_from-total sum [] h = omega arith
add_from-total sum (int n ∷ unions) h =
    add_from-total (add_int sum n) unions (omega arith) ∙ omega arith
add_from-total sum (char4 a b c d ∷ unions) h =
    add_from-total (add_int sum (a + b + c + d)) unions (omega arith) ∙ omega arith

-- The sum is that of the numbers which the unions stand for, up to the wrap-around of `int`.
pub add_tagged_unions-total :
    (unions : List TaggedUnion) → add_tagged_unions unions ≡ total unions % 2 ^ 32
unfolding add_tagged_unions
add_tagged_unions-total unions = add_from-total 0 unions (omega arith) ∙ omega arith
