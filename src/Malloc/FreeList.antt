-- ===== src/Malloc/FreeList.antt =====
-- The list of free blocks: what mm.c does to it and finds in it.
use cmpsc_473_operating_syst.Common.{
  ℕ, zero, suc, ◌+◌, ◌%◌, ◌^◌, ◌≤◌, ◌<◌, ◌≡◌, refl, ap, sym, ◌∙◌, ◌⊎◌, inl, inr, arith, true, false,
  some, List, [], ◌∷◌, ◌==◌, leb, if◌then◌else◌, length, Bool-cases,
}
use mathlib.Core.Path.{subst}
use cmpsc_473_operating_syst.Memlib.{mm_heapsize}
use cmpsc_473_operating_syst.Memlib.Words.{mem_read-mem_write, mem_read-mem_write_ne}
use cmpsc_473_operating_syst.Malloc.{
  Mm, load, put, next_node, prev_node, size_of, align, block_size_for, search_from, search,
  add_to_free_list,
}

-- The block for a request: a multiple of 16, at least 32, with room for the request and its header,
-- and less than 24 bytes larger than the request unless it is 32. For requests so near to 2 ^ 64 that
-- `size_t` overflows this is not so.
pub block_size_for-Fits :
    (size : ℕ)
    → size + 23 < 2 ^ 64
    → let block = block_size_for size in
      (block % 16 ≡ 0) × (32 ≤ block) × (size + 8 ≤ block) × ((block ≡ 32) ⊎ (block < size + 24))
unfolding block_size_for align
block_size_for-Fits size small = (ground arith, ground arith, ground arith, ground arith)

-- The blocks of a list, from `p` on, behind `prev`.
abbrev pub Linked : Mm → ℕ → ℕ → List ℕ → Type 0
Linked s prev p [] = p ≡ 0
Linked s prev p (x ∷ xs) =
    (p ≡ x) × (0 < x) × (load s (prev_node x) ≡ prev) × Linked s x (load s (next_node x)) xs

-- The first block of a list that is large enough, or NULL.
abbrev pub first_fit : ℕ → Mm → List ℕ → ℕ
first_fit size s [] = 0
first_fit size s (x ∷ xs) = if leb size (size_of (load s x)) then x else first_fit size s xs

search_from-first_fit :
    (fuel size : ℕ) (s : Mm) (prev p : ℕ) (xs : List ℕ)
    → Linked s prev p xs
    → length xs < fuel
    → search_from fuel size p s ≡ some (first_fit size s xs)
unfolding search_from
search_from-first_fit zero size s prev p xs h small = absurd (omega arith)
search_from-first_fit (suc fuel) size s prev p [] h small = rw h refl
search_from-first_fit (suc fuel) size s prev p (x ∷ xs) (at, there, back, rest) small =
    let some_block : (x == 0) ≡ false = ground arith in
    let more = search_from-first_fit fuel size s x (load s (next_node x)) xs rest (omega arith) in
    rw (at, some_block, more)
      (elim (Bool-cases (leb size (size_of (load s x)))) [
        | inl fits ↦ rw fits refl
        | inr small_one ↦ rw small_one refl
      ])

-- In a list of no more free blocks than the heap has bytes, the search ends and finds the first block
-- of the list whose size is enough, or NULL if there is none.
pub search-first_fit :
    (size : ℕ) (s : Mm) (xs : List ℕ)
    → Linked s 0 s.free_block_pointer xs
    → length xs ≤ mm_heapsize s.lib
    → search size s ≡ some (first_fit size s xs)
unfolding search
search-first_fit size s xs h fits =
    search_from-first_fit (mm_heapsize s.lib + 1) size s 0 s.free_block_pointer xs h (omega arith)

-- The link words of the block `x` are the 16 bytes behind its header.
abbrev pub Outside : ℕ → ℕ → Type 0
Outside a x = (a + 8 ≤ x + 8) ⊎ (x + 24 ≤ a)

abbrev pub Apart : ℕ → ℕ → Type 0
Apart x y = (x + 24 ≤ y) ⊎ (y + 24 ≤ x)

abbrev pub AllApart : ℕ → List ℕ → Type 0
AllApart x [] = Unit {0}
AllApart x (y ∷ ys) = Apart x y × AllApart x ys

-- Blocks that do not overlap, at addresses of 64 bits.
abbrev pub Placed : List ℕ → Type 0
Placed [] = Unit {0}
Placed (x ∷ xs) = (x + 24 ≤ 2 ^ 64) × AllApart x xs × Placed xs

pub load-put : (s : Mm) (a v : ℕ) → v < 2 ^ 64 → load (put s a v) a ≡ v
load-put s a v small = mem_read-mem_write s.mem a v small

pub load-put_ne : (s : Mm) (a v c : ℕ) → (c + 8 ≤ a) ⊎ (a + 8 ≤ c) → load (put s a v) c ≡ load s c
load-put_ne s a v c out = mem_read-mem_write_ne s.mem a v c out

-- A word outside the links of a list can be written.
pub put-Linked :
    (s : Mm) (b a v prev p : ℕ) (xs : List ℕ)
    → (a ≡ b + 8) ⊎ (a ≡ b + 16)
    → AllApart b xs
    → Linked s prev p xs
    → Linked (put s a v) prev p xs
put-Linked s b a v prev p [] which apart h = h
put-Linked s b a v prev p (x ∷ xs) which (out, apart) (at, there, back, rest) = (
  at,
  there,
  load-put_ne s a v (prev_node x) (ground arith) ∙ back,
  rw (load-put_ne s a v (next_node x) (ground arith))
      (put-Linked s b a v x (load s (next_node x)) xs which apart rest),
)

abbrev pub head_or_null : List ℕ → ℕ
head_or_null [] = 0
head_or_null (x ∷ xs) = x

-- The head of a list has a new block before it.
pub put-Linked_head :
    (s : Mm) (b prev p x : ℕ) (xs : List ℕ)
    → b < 2 ^ 64
    → AllApart x xs
    → Linked s prev p (x ∷ xs)
    → Linked (put s (prev_node p) b) b p (x ∷ xs)
put-Linked_head s b prev p x xs small apart (at, there, back, rest) = (
  at,
  there,
  rw (← at) (load-put s (prev_node p) b small),
  rw (load-put_ne s (prev_node p) b (next_node x) (inl (omega arith))) (
      put-Linked s x (prev_node p) b x (load s (next_node x)) xs (inr (ap prev_node at)) apart
        rest),
)

-- The first two writes of `add_to_free_list`.
abbrev pub linked_in : ℕ → Mm → Mm
linked_in b s = put (put s (prev_node b) 0) (next_node b) s.free_block_pointer

linked_in-fields :
    (s : Mm) (b : ℕ)
    → s.free_block_pointer < 2 ^ 64
    → (load (linked_in b s) (prev_node b) ≡ 0)
      × (load (linked_in b s) (next_node b) ≡ s.free_block_pointer)
linked_in-fields s b small = (
  load-put_ne (put s (prev_node b) 0) (next_node b) s.free_block_pointer (prev_node b)
        (inr (omega arith))
      ∙ load-put s (prev_node b) 0 (omega arith),
  load-put (put s (prev_node b) 0) (next_node b) s.free_block_pointer small,
)

pub linked_in-Linked :
    (s : Mm) (b prev p : ℕ) (xs : List ℕ)
    → AllApart b xs
    → Linked s prev p xs
    → Linked (linked_in b s) prev p xs
linked_in-Linked s b prev p xs apart h =
    put-Linked (put s (prev_node b) 0) b (next_node b) s.free_block_pointer prev p xs (inl refl)
      apart (put-Linked s b (prev_node b) 0 prev p xs (inr refl) apart h)

pub add_to_free_list-null :
    (b : ℕ) (s : Mm)
    → (s.free_block_pointer == 0) ≡ true
    → add_to_free_list b s ≡ record (linked_in b s) { free_block_pointer = b }
unfolding add_to_free_list
add_to_free_list-null b s e = simp (e)

pub add_to_free_list-head :
    (b : ℕ) (s : Mm)
    → (s.free_block_pointer == 0) ≡ false
    → add_to_free_list b s
      ≡ record (put (linked_in b s) (prev_node s.free_block_pointer) b) { free_block_pointer = b }
unfolding add_to_free_list
add_to_free_list-head b s e = simp (e)

-- A block that overlaps none of the list of free blocks, which do not overlap either, becomes its
-- first; all addresses are of 64 bits, and that of the block is not 0.
pub add_to_free_list-cons :
    (s : Mm) (b : ℕ) (xs : List ℕ)
    → 0 < b
    → Placed (b ∷ xs)
    → Linked s 0 s.free_block_pointer xs
    → let s' = add_to_free_list b s in Linked s' 0 s'.free_block_pointer (b ∷ xs)
add_to_free_list-cons s b [] there placed h =
    let (back, next) = linked_in-fields s b (omega arith) in
    rw (add_to_free_list-null b s (ground arith)) (refl, there, back, next ∙ h)
add_to_free_list-cons s b (x ∷ xs) there (within, (out, apart), (within', apart', placed))
      (at, there', back', rest) =
    let p = s.free_block_pointer in
    let s2 = linked_in b s in
    let (back, next) = linked_in-fields s b (omega arith) in
    let (at2, there2, back2, rest2) =
      put-Linked_head s2 b 0 p x xs (omega arith) apart'
        (linked_in-Linked s b 0 p (x ∷ xs) (out, apart) (at, there', back', rest)) in
    subst (λ t. Linked t 0 t.free_block_pointer (b ∷ x ∷ xs))
      (sym (add_to_free_list-head b s (ground arith)))
      (
        refl,
        there,
        load-put_ne s2 (prev_node p) b (prev_node b) (ground arith) ∙ back,
        (
          load-put_ne s2 (prev_node p) b (next_node b) (ground arith) ∙ next ∙ at,
          there',
          back2,
          rest2,
        ),
      )

-- Block `q` and the block `next`, if there is one, made neighbours.
abbrev pub neighbours : ℕ → ℕ → Mm → Mm
neighbours q next s =
    let s1 = put s (next_node q) next in if next == 0 then s1 else put s1 (prev_node next) q

pub load-neighbours :
    (s : Mm) (q next a : ℕ)
    → (a + 8 ≤ next_node q) ⊎ (next_node q + 8 ≤ a)
    → (next ≡ 0) ⊎ ((a + 8 ≤ prev_node next) ⊎ (prev_node next + 8 ≤ a))
    → load (neighbours q next s) a ≡ load s a
load-neighbours s q next a out out' = elim (Bool-cases (next == 0)) [
  | inl last ↦ rw last (load-put_ne s (next_node q) next a out)
  | inr more ↦ rw more (
      load-put_ne (put s (next_node q) next) (prev_node next) q a (ground arith)
      ∙ load-put_ne s (next_node q) next a out)
]
