-- ===== src/Outcome.antt =====
-- What a call of the simulation program comes to: a value, a failed `assert`, or a use of memory
-- that is not there. A loop of the model can also run out of its fuel.

pub data Outcome (A : Type 0) : Type 0 where
  ok : A → Outcome A
  abort : Outcome A
  fault : Outcome A
  out_of_fuel : Outcome A

infixl 5 ◌>>=◌
abbrev pub ◌>>=◌ : {A B : Type 0} → Outcome A → (A → Outcome B) → Outcome B
ok a >>= f = f a
abort >>= f = abort
fault >>= f = fault
out_of_fuel >>= f = out_of_fuel

-- The call succeeds, with a value that satisfies `P`.
pub data Succeeds {A : Type 0} (P : A → Type 0) : Outcome A → Type 0 where
  succeeds : {a : A} → P a → Succeeds P (ok a)

module _ {A : Type 0} {P : A → Type 0} where
  pub Succeeds-bind :
      {B : Type 0} {Q : B → Type 0} {m : Outcome A} {f : A → Outcome B}
      → Succeeds P m
      → ((a : A) → P a → Succeeds Q (f a))
      → Succeeds Q (m >>= f)
  Succeeds-bind (succeeds h) next = next _ h

  pub Succeeds-mono :
      {Q : A → Type 0} {m : Outcome A} → Succeeds P m → ((a : A) → P a → Q a) → Succeeds Q m
  Succeeds-mono (succeeds h) weaken = succeeds (weaken _ h)
