-- ===== src/Buffer.antt =====
-- concurrency-project-FreezeKickerz/buffer.h and buffer.c: the ring of `void*` in which a channel
-- keeps its messages. A pointer that is only stored is a value of any type `A`.
pub mod Spec
pub mod Refine
mod Tests
use cmpsc_473_operating_syst.Common.{
  ℕ, ◌+◌, ◌-◌, ◌%◌, ◌^◌, Bool, Option, none, some, List, [], ◌∷◌, leb, ltb, if◌then◌else◌,
  get_elem?, set,
}

-- `enum buffer_status`
pub data Status : Type 0 where
  buffer_success buffer_error : Status

-- `buffer_t`; `values` is the array `data`.
pub record Buffer (A : Type 0) : Type 0 where
  pub size : ℕ
  pub next : ℕ
  pub capacity : ℕ
  pub values : List A

-- `size_t` arithmetic wraps.
abbrev pub add_size : ℕ → ℕ → ℕ
add_size a b = (a + b) % 2 ^ 64

abbrev pub sub_size : ℕ → ℕ → ℕ
sub_size a b = (a + 2 ^ 64 - b) % 2 ^ 64

-- `if (pos >= buffer->capacity) pos -= buffer->capacity;`
abbrev pub fold_back : ℕ → ℕ → ℕ
fold_back capacity pos = if leb capacity pos then sub_size pos capacity else pos

module _ {A : Type 0} where
  -- `storage` is the array that `malloc` gave.
  unfoldable pub buffer_create : List A → ℕ → Buffer A
  buffer_create storage capacity = record {
    size = 0;
    next = 0;
    capacity = capacity;
    values = storage;
  }

  unfoldable pub buffer_add : Buffer A → A → Status × Buffer A
  buffer_add b x = if leb b.capacity b.size then (buffer_error, b) else (
    buffer_success,
    record b {
      size = add_size b.size 1;
      values = set b.values (fold_back b.capacity (add_size b.next b.size)) x;
    },
  )

  -- The option is what is stored through `data`; `none` where nothing is.
  unfoldable pub buffer_remove : Buffer A → Status × Option A × Buffer A
  buffer_remove b =
      if ltb 0 b.size
      then (
        buffer_success,
        get_elem? b.values b.next,
        record b { size = sub_size b.size 1; next = fold_back b.capacity (add_size b.next 1) },
      )
      else (buffer_error, none, b)

  unfoldable pub buffer_capacity : Buffer A → ℕ
  buffer_capacity b = b.capacity

  unfoldable pub buffer_current_size : Buffer A → ℕ
  buffer_current_size b = b.size

  unfoldable pub peek_buffer : Buffer A → ℕ → Option A
  peek_buffer b index = get_elem? b.values index

-- A caller's use of a buffer: calls in order, with what each returns.
pub data Call (A : Type 0) : Type 0 where
  adds : A → Call A
  removes : Call A
  sizes : Call A

pub data Reply (A : Type 0) : Type 0 where
  added : Status → Reply A
  removed : Status → Option A → Reply A
  sized : ℕ → Reply A

module _ {A : Type 0} where
  unfoldable pub run : Buffer A → List (Call A) → List (Reply A)
  run b [] = []
  run b (adds x ∷ calls) = let (s, b') = buffer_add b x in added s ∷ run b' calls
  run b (removes ∷ calls) = let (s, out, b') = buffer_remove b in removed s out ∷ run b' calls
  run b (sizes ∷ calls) = sized (buffer_current_size b) ∷ run b calls
