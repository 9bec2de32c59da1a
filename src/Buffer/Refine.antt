-- ===== src/Buffer/Refine.antt =====
-- A buffer behaves as the bounded queue of the values that it holds.
use cmpsc_473_operating_syst.Common.{
  ℕ, suc, ◌+◌, ◌-◌, ◌^◌, ◌≤◌, ◌<◌, ◌≡◌, refl, ◌≢◌, ◌⊎◌, inl, inr, true, false, none, some, List, [],
  ◌∷◌, ◌++◌, arith, leb, ltb, if◌then◌else◌, length, get_elem?, set, length-append, length-set,
  get_elem?-set_self, get_elem?-set_ne, get_elem?-append_left, get_elem?-snoc,
}
use native.Mathlib.Decide.{dec_lt}
use cmpsc_473_operating_syst.Buffer.{
  Buffer, buffer_success, buffer_error, buffer_create, buffer_add, buffer_remove,
  buffer_current_size, Call, adds, removes, sizes, run,
}
use cmpsc_473_operating_syst.Buffer.Spec

-- The index of the `k`-th value from the front.
abbrev index : ℕ → ℕ → ℕ → ℕ
index capacity next k = if leb capacity (next + k) then next + k - capacity else next + k

-- `b` holds the values of `q`, oldest first. An array of pointers takes 8 bytes for each, so no
-- `malloc` can give one of 2 ^ 61 or more.
pub record Represents {A : Type 0} (b : Buffer A) (q : List A) : Type 0 where
  pub storage : b.capacity ≤ length b.values
  pub small : b.capacity < 2 ^ 61
  pub next_in : (b.next < b.capacity) ⊎ ((b.next ≡ 0) × (b.capacity ≡ 0))
  pub count : b.size ≡ length q
  pub fits : b.size ≤ b.capacity
  pub holds :
      (k : ℕ) → k < length q → get_elem? b.values (index b.capacity b.next k) ≡ get_elem? q k

module _ {A : Type 0} where
  pub buffer_create-Represents :
      (storage : List A) (capacity : ℕ)
      → capacity ≤ length storage
      → capacity < 2 ^ 61
      → Represents (buffer_create storage capacity) []
  unfolding buffer_create
  buffer_create-Represents storage capacity enough small = record {
    storage = enough;
    small = small;
    next_in = ground arith;
    count = refl;
    fits = omega arith;
    holds = λ k h. absurd (omega arith);
  }

  module _ {b : Buffer A} {q : List A} (r : Represents b q) where
    open r use {storage, small, next_in, count, fits, holds}

    buffer_add-full : (x : A) → b.capacity ≤ length q → buffer_add b x ≡ (buffer_error, b)
    unfolding buffer_add
    buffer_add-full x full = ground arith

    buffer_add_stores :
        (x : A)
        → length q < b.capacity
        → buffer_add b x ≡ (
          buffer_success,
          record b { size = b.size + 1; values = set b.values (index b.capacity b.next b.size) x },
        )
    unfolding buffer_add
    buffer_add_stores x room = ground arith

    index_in : (k : ℕ) → k < b.capacity → index b.capacity b.next k < length b.values
    index_in k h = ground arith

    index_ne :
        (k : ℕ)
        → k < b.size
        → b.size < b.capacity
        → index b.capacity b.next b.size ≢ index b.capacity b.next k
    index_ne k h room = ground arith

    buffer_add-ok :
        (x : A)
        → length q < b.capacity
        → let (s, b') = buffer_add b x in
          (s ≡ buffer_success) × Represents b' (q ++ x ∷ []) × (b'.capacity ≡ b.capacity)
    buffer_add-ok x room = rw (buffer_add_stores x room) (
      refl,
      record {
        storage = omega (arith, length-set b.values (index b.capacity b.next b.size) x);
        small = small;
        next_in = next_in;
        count = omega (arith, length-append q (x ∷ []));
        fits = omega arith;
        holds = λ k h. elim (dec_lt k b.size) [
          | yes old ↦
              rw
                (
                  get_elem?-append_left q (x ∷ []) k (omega arith),
                  get_elem?-set_ne b.values x (index_ne k old (omega arith)),
                )
                (holds k (omega arith))
          | no new ↦
              let e : k ≡ length q = omega (arith, length-append q (x ∷ [])) in
              rw (e, get_elem?-snoc q x, ← count)
                (get_elem?-set_self b.values _ x (index_in b.size (omega arith)))
        ];
      },
      refl,
    )

  buffer_remove-nil : {b : Buffer A} → Represents b [] → buffer_remove b ≡ (buffer_error, none, b)
  unfolding buffer_remove
  buffer_remove-nil r = ground (arith, r.count)

  module _ {b : Buffer A} {x : A} {q : List A} (r : Represents b (x ∷ q)) where
    open r use {storage, small, next_in, count, fits, holds}

    buffer_remove_takes :
        buffer_remove b
        ≡ (buffer_success, some x, record b { size = b.size - 1; next = index b.capacity b.next 1 })
    unfolding buffer_remove
    buffer_remove_takes = ground (arith, holds 0)

    buffer_remove-cons :
        let (s, out, b') = buffer_remove b in
        (s ≡ buffer_success) × (out ≡ some x) × Represents b' q × (b'.capacity ≡ b.capacity)
    buffer_remove-cons = rw buffer_remove_takes (
      refl,
      refl,
      record {
        storage = storage;
        small = small;
        next_in = ground arith;
        count = omega arith;
        fits = omega arith;
        holds = λ k h. ground (arith, holds (suc k));
      },
      refl,
    )

  -- The replies and the states of one call, side by side.
  buffer_add-push :
      {b : Buffer A} {q : List A} (x : A)
      → Represents b q
      → let (s, b') = buffer_add b x in
        let (s', q') = Spec.push b.capacity q x in
        (s ≡ s') × Represents b' q' × (b'.capacity ≡ b.capacity)
  unfolding Spec.push
  buffer_add-push {b} {q} x r = elim (dec_lt (length q) b.capacity) [
    | yes room ↦
        let e : ltb (length q) b.capacity ≡ true = ground arith in rw e (buffer_add-ok r x room)
    | no full ↦
        let e : ltb (length q) b.capacity ≡ false = ground arith in
        rw (e, buffer_add-full r x (omega arith)) (refl, r, refl)
  ]

  buffer_remove-pop :
      {b : Buffer A} (q : List A)
      → Represents b q
      → let (s, out, b') = buffer_remove b in
        let (s', out', q') = Spec.pop q in
        (s ≡ s') × (out ≡ out') × Represents b' q' × (b'.capacity ≡ b.capacity)
  unfolding Spec.pop
  buffer_remove-pop [] r = rw (buffer_remove-nil r) (refl, refl, r, refl)
  buffer_remove-pop (x ∷ q) r = buffer_remove-cons r

  -- What a call has done, from its status.
  module _ {b : Buffer A} {q : List A} (r : Represents b q) where
    pub buffer_add-Represents :
        (x : A)
        → let (s, b') = buffer_add b x in
          ((s ≡ buffer_success) × Represents b' (q ++ x ∷ []) × (b'.capacity ≡ b.capacity))
          ⊎ ((s ≡ buffer_error) × Represents b' q × (b'.capacity ≡ b.capacity))
    buffer_add-Represents x = elim (dec_lt (length q) b.capacity) [
      | yes room ↦ inl (buffer_add-ok r x room)
      | no full ↦ inr (rw (buffer_add-full r x (omega arith)) (refl, r, refl))
    ]

  pub buffer_remove-Represents :
      {b : Buffer A} (q : List A)
      → Represents b q
      → let (s, out, b') = buffer_remove b in
        ((x : A) × (q' : List A) × (s ≡ buffer_success)
          × (out ≡ some x)
          × (q ≡ x ∷ q')
          × Represents b' q'
          × (b'.capacity ≡ b.capacity))
        ⊎ ((s ≡ buffer_error) × (out ≡ none) × Represents b' q × (b'.capacity ≡ b.capacity))
  buffer_remove-Represents [] r = inr (rw (buffer_remove-nil r) (refl, refl, r, refl))
  buffer_remove-Represents (x ∷ q) r =
      let (s, out, r', fixed) = buffer_remove-cons r in inl (x, q, s, out, refl, r', fixed)

  -- No sequence of calls tells a buffer that represents `q` from the bounded queue that holds `q`:
  -- every status, every removed value and every size agree.
  pub run_refines :
      (calls : List (Call A)) {b : Buffer A} {q : List A}
      → Represents b q
      → run b calls ≡ Spec.run b.capacity q calls
  unfolding run Spec.run buffer_current_size
  run_refines [] r = refl
  run_refines (adds x ∷ calls) {q} r =
      let (same, r', cap) = buffer_add-push x r in rw (run_refines calls r', same, cap)
  run_refines (removes ∷ calls) {q} r =
      let (same, out, r', cap) = buffer_remove-pop q r in rw (run_refines calls r', same, out, cap)
  run_refines (sizes ∷ calls) r = rw (run_refines calls r, r.count)

  -- A buffer fresh from `buffer_create`, over an array of `capacity` pointers, answers every
  -- sequence of calls as an empty queue bounded by `capacity` does.
  pub buffer_create_refines :
      (storage : List A) (capacity : ℕ) (calls : List (Call A))
      → capacity ≤ length storage
      → capacity < 2 ^ 61
      → run (buffer_create storage capacity) calls ≡ Spec.run capacity [] calls
  unfolding buffer_create
  buffer_create_refines storage capacity calls enough small =
      run_refines calls (buffer_create-Represents storage capacity enough small)
