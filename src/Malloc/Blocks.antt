-- ===== src/Malloc/Blocks.antt =====
-- The heap as a row of blocks between the prologue and the epilogue of mm_init.
use cmpsc_473_operating_syst.Common.{
  ℕ, ◌+◌, ◌-◌, ◌%◌, ◌≤◌, ◌<◌, ◌≡◌, refl, ap, ◌∙◌, ◌⊎◌, inl, inr, arith, Bool, true, false, List, [],
  ◌∷◌, ◌++◌,
}
use cmpsc_473_operating_syst.Memlib.{Memory, mem_read, mem_write}
use cmpsc_473_operating_syst.Memlib.Bounds.{mem_write_outside}
use cmpsc_473_operating_syst.Memlib.Words.{mem_read-mem_write_ne}

-- A free block by its size, header and footer included; an allocated one by its size and the bytes
-- behind its header.
pub data MemoryBlock : Type 0 where
  vacant : ℕ → MemoryBlock
  used : ℕ → (ℕ → ℕ) → MemoryBlock

abbrev pub Row : Type 0
Row = List MemoryBlock

abbrev pub size : MemoryBlock → ℕ
size (vacant k) = k
size (used k c) = k

abbrev pub is_used : MemoryBlock → Bool
is_used (vacant k) = false
is_used (used k c) = true

-- Where a row that starts at `a` ends, and whether the last block before its end is allocated.
abbrev pub row_end : ℕ → Row → ℕ
row_end a [] = a
row_end a (b ∷ bs) = row_end (a + size b) bs

abbrev pub last_used : Bool → Row → Bool
last_used u [] = u
last_used u (b ∷ bs) = last_used (is_used b) bs

-- The addresses of the free blocks.
abbrev pub vacancies : ℕ → Row → List ℕ
vacancies a [] = []
vacancies a (vacant k ∷ bs) = a ∷ vacancies (a + k) bs
vacancies a (used k c ∷ bs) = vacancies (a + k) bs

abbrev pub flag : Bool → ℕ
flag true = 2
flag false = 0

abbrev pub Sized : ℕ → Type 0
Sized k = (32 ≤ k) × (k % 16 ≡ 0)

-- The bytes of a block: the header with the mark of the block before it, and the footer of a free one.
abbrev pub Holds : Memory → Bool → ℕ → MemoryBlock → Type 0
Holds mem u a (vacant k) =
    Sized k × (mem_read mem a 8 ≡ k + flag u) × (mem_read mem (a + k - 8) 8 ≡ k)
Holds mem u a (used k c) =
    Sized k × (mem_read mem a 8 ≡ k + 1 + flag u) × ((i : ℕ) → i < k - 8 → mem (a + 8 + i) ≡ c i)

abbrev pub Tiled : Memory → Bool → ℕ → Row → Type 0
Tiled mem u a [] = Unit {0}
Tiled mem u a (b ∷ bs) = Holds mem u a b × Tiled mem (is_used b) (a + size b) bs

-- Whether a word may be written without a trace in the row: elsewhere, or between the header and the
-- footer of a free block.
abbrev pub Loose : ℕ → ℕ → Row → Type 0
Loose x a [] = Unit {0}
Loose x a (vacant k ∷ bs) =
    ((x + 8 ≤ a) ⊎ (((a + 8 ≤ x) × (x + 16 ≤ a + k)) ⊎ (a + k ≤ x))) × Loose x (a + k) bs
Loose x a (used k c ∷ bs) = ((x + 8 ≤ a) ⊎ (a + k ≤ x)) × Loose x (a + k) bs

pub row_end-append : (a : ℕ) (xs ys : Row) → row_end a (xs ++ ys) ≡ row_end (row_end a xs) ys
row_end-append a [] ys = refl
row_end-append a (x ∷ xs) ys = row_end-append (a + size x) xs ys

pub last_used-append :
    (u : Bool) (xs ys : Row) → last_used u (xs ++ ys) ≡ last_used (last_used u xs) ys
last_used-append u [] ys = refl
last_used-append u (x ∷ xs) ys = last_used-append (is_used x) xs ys

pub vacancies-append :
    (a : ℕ) (xs ys : Row) → vacancies a (xs ++ ys) ≡ vacancies a xs ++ vacancies (row_end a xs) ys
vacancies-append a [] ys = refl
vacancies-append a (vacant k ∷ xs) ys = ap (λ t. a ∷ t) (vacancies-append (a + k) xs ys)
vacancies-append a (used k c ∷ xs) ys = vacancies-append (a + k) xs ys

-- A row in two parts, taken apart and put together.
pub Tiled-append :
    (mem : Memory) (u : Bool) (a : ℕ) (xs ys : Row)
    → Tiled mem u a xs
    → Tiled mem (last_used u xs) (row_end a xs) ys
    → Tiled mem u a (xs ++ ys)
Tiled-append mem u a [] ys t v = v
Tiled-append mem u a (x ∷ xs) ys (h, t) v = (h, Tiled-append mem (is_used x) (a + size x) xs ys t v)

pub Tiled-split :
    (mem : Memory) (u : Bool) (a : ℕ) (xs ys : Row)
    → Tiled mem u a (xs ++ ys)
    → Tiled mem u a xs × Tiled mem (last_used u xs) (row_end a xs) ys
Tiled-split mem u a [] ys t = (tt, t)
Tiled-split mem u a (x ∷ xs) ys (h, t) =
    let (left, right) = Tiled-split mem (is_used x) (a + size x) xs ys t in ((h, left), right)

pub Loose-append :
    (x a : ℕ) (xs ys : Row) → Loose x a xs → Loose x (row_end a xs) ys → Loose x a (xs ++ ys)
Loose-append x a [] ys l r = r
Loose-append x a (vacant k ∷ xs) ys (h, l) r = (h, Loose-append x (a + k) xs ys l r)
Loose-append x a (used k c ∷ xs) ys (h, l) r = (h, Loose-append x (a + k) xs ys l r)

-- Writes that leave no trace.
pub Tiled-write :
    (mem : Memory) (u : Bool) (a x v : ℕ) (bs : Row)
    → Loose x a bs
    → Tiled mem u a bs
    → Tiled (mem_write mem x v 8) u a bs
Tiled-write mem u a x v [] l t = tt
Tiled-write mem u a x v (vacant k ∷ bs) (out, l) ((sized, head, foot), t) = (
  (
    sized,
    mem_read-mem_write_ne mem x v a (ground arith) ∙ head,
    mem_read-mem_write_ne mem x v (a + k - 8) (ground arith) ∙ foot,
  ),
  Tiled-write mem false (a + k) x v bs l t,
)
Tiled-write mem u a x v (used k c ∷ bs) (out, l) ((sized, head, bytes), t) = (
  (
    sized,
    mem_read-mem_write_ne mem x v a (ground arith) ∙ head,
    λ i small. mem_write_outside mem x v 8 (a + 8 + i) (ground arith) ∙ bytes i small,
  ),
  Tiled-write mem true (a + k) x v bs l t,
)

-- A row does not end before it starts.
pub row_end-le : (a : ℕ) (bs : Row) → a ≤ row_end a bs
row_end-le a [] = omega arith
row_end-le a (b ∷ bs) = omega (arith, row_end-le (a + size b) bs)

pub Loose-below : (x a : ℕ) (bs : Row) → x + 8 ≤ a → Loose x a bs
Loose-below x a [] h = tt
Loose-below x a (vacant k ∷ bs) h = (inl h, Loose-below x (a + k) bs (omega arith))
Loose-below x a (used k c ∷ bs) h = (inl h, Loose-below x (a + k) bs (omega arith))

pub Loose-above : (x a : ℕ) (bs : Row) → row_end a bs ≤ x → Loose x a bs
Loose-above x a [] h = tt
Loose-above x a (vacant k ∷ bs) h =
    (inr (inr (omega (arith, row_end-le (a + k) bs))), Loose-above x (a + k) bs h)
Loose-above x a (used k c ∷ bs) h =
    (inr (omega (arith, row_end-le (a + k) bs)), Loose-above x (a + k) bs h)
