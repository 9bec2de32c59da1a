-- ===== src/Malloc/Invariant.antt =====
-- The heap of the allocator: a row of blocks from the prologue to the epilogue, and the list through
-- all its free blocks.
use cmpsc_473_operating_syst.Common.{
  ℕ, ◌+◌, ◌%◌, ◌^◌, ◌≤◌, ◌<◌, ◌≡◌, refl, ◌∙◌, ◌⊎◌, inl, inr, arith, Bool, true, List, [], ◌∷◌, ◌++◌,
  length,
}
use mathlib.Core.Path.{subst}
use cmpsc_473_operating_syst.Memlib.{MemLib}
use cmpsc_473_operating_syst.Malloc.{Mm, load, put, next_node, prev_node}
use cmpsc_473_operating_syst.Malloc.FreeList.{Linked, Placed, Outside, load-put_ne}
use cmpsc_473_operating_syst.Malloc.Blocks.{
  vacant, Row, row_end, vacancies, flag, Tiled, vacancies-append,
}
use cmpsc_473_operating_syst.Malloc.Vacancies.{In, Same, In-append, vacancies_within}
use cmpsc_473_operating_syst.Malloc.Around.{Runs, Around, Around-put, Around-flag}

-- The heap ends at the break, and its addresses are of 64 bits.
abbrev pub Fits : MemLib → Row → Type 0
Fits lib bs =
    (0 < lib.heap)
    × (lib.heap % 16 ≡ 0)
    × (row_end (lib.heap + 8) bs + 8 ≡ lib.mem_brk)
    × (lib.mem_brk ≤ lib.mem_max_addr)
    × (lib.mem_max_addr < 2 ^ 64)

pub record IsHeap (s : Mm) (bs : Row) (xs : List ℕ) : Type 0 where
  pub fits : Fits s.lib bs
  pub runs : Runs s.mem true (s.lib.heap + 8) bs
  pub linked : Linked s 0 s.free_block_pointer xs
  pub placed : Placed xs
  pub same : Same xs (vacancies (s.lib.heap + 8) bs)
  pub counted : length xs ≡ length (vacancies (s.lib.heap + 8) bs)

-- A write outside the links of a list.
pub Linked-put :
    (s : Mm) (w v prev p : ℕ) (xs : List ℕ)
    → ((x : ℕ) → In x xs → Outside w x)
    → Linked s prev p xs
    → Linked (put s w v) prev p xs
Linked-put s w v prev p [] out h = h
Linked-put s w v prev p (x ∷ xs) out (at, there, back, rest) =
    let here = out x (inl refl) in
    (
      at,
      there,
      load-put_ne s w v (prev_node x) (ground arith) ∙ back,
      rw (load-put_ne s w v (next_node x) (ground arith))
          (Linked-put s w v x (load s (next_node x)) xs (λ y i. out y (inr i)) rest),
    )

-- The blocks of a list that lie beside the bytes from `lo` to `hi`, or at `lo`.
abbrev pub Beside : ℕ → ℕ → List ℕ → Type 0
Beside lo hi xs = (x : ℕ) → In x xs → (x + 32 ≤ lo) ⊎ ((x ≡ lo) ⊎ (hi ≤ x))

-- A word that is no link of such blocks.
abbrev pub Framed : ℕ → ℕ → ℕ → Type 0
Framed lo hi w = (lo + 24 ≤ hi) × ((w ≡ lo) ⊎ ((lo + 24 ≤ w) × (w ≤ hi)))

pub Linked-Framed :
    (s : Mm) (lo hi w v prev p : ℕ) (xs : List ℕ)
    → Beside lo hi xs
    → Framed lo hi w
    → Linked s prev p xs
    → Linked (put s w v) prev p xs
Linked-Framed s lo hi w v prev p xs beside framed h =
    Linked-put s w v prev p xs (λ x i. outside x (beside x i)) h
  where
    outside : (x : ℕ) → (x + 32 ≤ lo) ⊎ ((x ≡ lo) ⊎ (hi ≤ x)) → Outside w x
    outside x which = ground arith

-- The free blocks beside one block of a row.
pub vacancies-Beside :
    (s : Mm) (a : ℕ) (ls : Row) (k : ℕ) (rs : Row) (u v : Bool)
    → Tiled s.mem u a ls
    → Runs s.mem v (row_end a ls + k) rs
    → (x : ℕ) → In x (vacancies a (ls ++ vacant k ∷ rs))
    → (x + 32 ≤ row_end a ls) ⊎ ((x ≡ row_end a ls) ⊎ (row_end a ls + k ≤ x))
vacancies-Beside s a ls k rs u v t r x i =
    elim (In-append x (vacancies a ls) _ (subst (In x) (vacancies-append a ls (vacant k ∷ rs)) i)) [
      | inl l ↦ inl (vacancies_within s.mem u a x ls t l).1
      | inr (inl e) ↦ inr (inl e)
      | inr (inr m) ↦ inr (inr (vacancies_within s.mem v (row_end a ls + k) x rs r.0 m).0)
    ]

-- The parts of the heap around some bytes, and the list.
module _ (lib : MemLib) (ls rs : Row) (hi : ℕ) (xs : List ℕ) where
  abbrev pub Shape : Bool → Mm → Type 0
  Shape u s = Around lib ls rs hi u s × Linked s 0 s.free_block_pointer xs

  module _ (beside : Beside (row_end (lib.heap + 8) ls) hi xs) where
    pub Shape-put :
        (u : Bool) (s : Mm) (w v : ℕ)
        → Framed (row_end (lib.heap + 8) ls) hi w
        → w + 8 ≤ hi
        → Shape u s
        → Shape u (put s w v)
    Shape-put u s w v framed below (around, linked) = (
      Around-put lib ls rs hi u s w v (ground arith) below around,
      Linked-Framed s (row_end (lib.heap + 8) ls) hi w v 0 s.free_block_pointer xs beside framed
          linked,
    )

    pub Shape-flag :
        (u : Bool) (s : Mm)
        → row_end (lib.heap + 8) ls + 24 ≤ hi
        → row_end hi rs + 8 ≤ 2 ^ 64
        → Shape u s
        → (w : ℕ) × ((load s hi ≡ w + flag u)
            × (w % 4 ≤ 1)
            × (w + 2 < 2 ^ 64)
            × ((u' : Bool) → Shape u' (put s hi (w + flag u'))))
    Shape-flag u s room fits (around, linked) =
        let (w, (word, mark, small, marked)) =
          Around-flag lib ls rs hi u s (omega arith) fits around in
        (
          w,
          (
            word,
            mark,
            small,
            λ u'. (
              marked u',
              Linked-Framed s (row_end (lib.heap + 8) ls) hi hi (w + flag u') 0 s.free_block_pointer
                  xs beside (room, inr (room, omega arith)) linked,
            ),
          ),
        )
