-- ===== src/Malloc/Unlink.antt =====
-- remove_from_free_list takes a block out of the list of free blocks, wherever it stands.
use cmpsc_473_operating_syst.Common.{
  ℕ, ◌<◌, ◌^◌, ◌≡◌, refl, sym, ◌∙◌, ◌⊎◌, inl, inr, arith, false, List, [], ◌∷◌, ◌++◌, ◌==◌,
  snoc_cases, if◌then◌else◌,
}
use mathlib.Core.Path.{subst}
use mathlib.Core.List.{append_assoc}
use cmpsc_473_operating_syst.Malloc.{Mm, load, put, next_node, prev_node, remove_from_free_list}
use cmpsc_473_operating_syst.Malloc.FreeList.{
  Linked, Apart, AllApart, Placed, load-put, load-put_ne, put-Linked, put-Linked_head, head_or_null,
  neighbours, load-neighbours,
}

AllApart-mid :
    (x : ℕ) (xs : List ℕ) (q b : ℕ) (ys : List ℕ)
    → AllApart x (xs ++ q ∷ b ∷ ys)
    → Apart x q × AllApart x ys
AllApart-mid x [] q b ys (a, (a', rest)) = (a, rest)
AllApart-mid x (z ∷ xs) q b ys (a, rest) = AllApart-mid x xs q b ys rest

AllApart-head :
    (x : ℕ) (ys : List ℕ) → AllApart x ys → (head_or_null ys ≡ 0) ⊎ Apart x (head_or_null ys)
AllApart-head x [] h = inl refl
AllApart-head x (y ∷ ys) (a, h) = inr a

-- The two neighbours of a block, at the front of a list.
neighbours-Linked_front :
    (s : Mm) (prev p q b : ℕ) (ys : List ℕ)
    → Linked s prev p (q ∷ b ∷ ys)
    → Placed (q ∷ b ∷ ys)
    → Linked (neighbours q (head_or_null ys) s) prev p (q ∷ ys)
neighbours-Linked_front s prev p q b [] (at, there, back, rest) placed = (
  at,
  there,
  load-neighbours s q 0 (prev_node q) (inr (omega arith)) (inl refl) ∙ back,
  load-put s (next_node q) 0 (omega arith),
)
neighbours-Linked_front s prev p q b (y ∷ ys)
      (at, there, back, (at2, there2, back2, (at3, there3, back3, rest3)))
      (
        within,
        (apart_b, (apart_y, apart)),
        (within_b, (apart_by, apart_bys), (within_y, apart_ys, placed)),
      ) =
    let s1 = put s (next_node q) y in
    let some_y : (y == 0) ≡ false = ground arith in
    let joined : neighbours q y s ≡ put s1 (prev_node y) q = rw some_y refl in
    let (at4, there4, back4, rest4) = put-Linked_head s1 q b y y ys (omega arith) apart_ys (
      put-Linked s q (next_node q) y b y (y ∷ ys) (inl refl) (apart_y, apart)
        (refl, there3, back3, rest3)) in
    subst (λ t. Linked t prev p (q ∷ y ∷ ys)) (sym joined)
      (
        at,
        there,
        load-put_ne s1 (prev_node y) q (prev_node q) (ground arith)
            ∙ load-put_ne s (next_node q) y (prev_node q) (inr (omega arith))
            ∙ back,
        (
          load-put_ne s1 (prev_node y) q (next_node q) (ground arith)
              ∙ load-put s (next_node q) y (omega arith),
          there4,
          back4,
          rest4,
        ),
      )

-- The two neighbours of a block anywhere in a list.
neighbours-Linked :
    (s : Mm) (prev p : ℕ) (xs : List ℕ) (q b : ℕ) (ys : List ℕ)
    → Linked s prev p (xs ++ q ∷ b ∷ ys)
    → Placed (xs ++ q ∷ b ∷ ys)
    → Linked (neighbours q (head_or_null ys) s) prev p (xs ++ q ∷ ys)
neighbours-Linked s prev p [] q b ys h placed = neighbours-Linked_front s prev p q b ys h placed
neighbours-Linked s prev p (x ∷ xs) q b ys (at, there, back, rest) (within, apart, placed) =
    let n = head_or_null ys in
    let (apart_q, apart_ys) = AllApart-mid x xs q b ys apart in
    let apart_n = AllApart-head x ys apart_ys in
    (
      at,
      there,
      load-neighbours s q n (prev_node x) (ground arith) (ground arith) ∙ back,
      rw (load-neighbours s q n (next_node x) (ground arith) (ground arith))
          (neighbours-Linked s x (load s (next_node x)) xs q b ys rest placed),
    )

pub Linked-head : (s : Mm) (prev p : ℕ) (ys : List ℕ) → Linked s prev p ys → p ≡ head_or_null ys
Linked-head s prev p [] h = h
Linked-head s prev p (y ∷ ys) h = h.0

-- What the links of a block in a list say.
pub Linked-mid :
    (s : Mm) (prev p : ℕ) (xs : List ℕ) (q b : ℕ) (ys : List ℕ)
    → Linked s prev p (xs ++ q ∷ b ∷ ys)
    → Placed (xs ++ q ∷ b ∷ ys)
    → (load s (prev_node b) ≡ q)
      × (load s (next_node b) ≡ head_or_null ys)
      × (0 < q)
      × (head_or_null ys < 2 ^ 64)
      × Apart q b
      × ((head_or_null ys ≡ 0) ⊎ Apart b (head_or_null ys))
Linked-mid s prev p [] q b ys (at, there, back, (at2, there2, back2, rest2))
      (within, (apart, apart'), (within_b, apart_b, placed)) =
    (
      back2,
      Linked-head s b (load s (next_node b)) ys rest2,
      there,
      small ys placed,
      apart,
      AllApart-head b ys apart_b,
    )
  where
    small : (zs : List ℕ) → Placed zs → head_or_null zs < 2 ^ 64
    small [] h = omega arith
    small (z ∷ zs) (w, a, h) = omega arith
Linked-mid s prev p (x ∷ xs) q b ys (at, there, back, rest) (within, apart, placed) =
    Linked-mid s x (load s (next_node x)) xs q b ys rest placed

pub remove-neighbours :
    (s : Mm) (q b n : ℕ)
    → load s (prev_node b) ≡ q
    → load s (next_node b) ≡ n
    → 0 < q
    → Apart q b
    → remove_from_free_list b s ≡ neighbours q n s
unfolding remove_from_free_list
remove-neighbours s q b n back next there apart =
    let some_q : (q == 0) ≡ false = ground arith in
    let next' : load (put s (next_node q) n) (next_node b) ≡ n =
      load-put_ne s (next_node q) n (next_node b) (ground arith) ∙ next in
    let back' : load (put s (next_node q) n) (prev_node b) ≡ q =
      load-put_ne s (next_node q) n (prev_node b) (ground arith) ∙ back in
    simp (back, next, some_q, next', back')

-- The first block out.
abbrev pub headed : ℕ → Mm → Mm
headed n s =
    let s' = record s { free_block_pointer = n } in if n == 0 then s' else put s' (prev_node n) 0

pub remove-headed :
    (s : Mm) (b n : ℕ)
    → load s (prev_node b) ≡ 0
    → load s (next_node b) ≡ n
    → remove_from_free_list b s ≡ headed n s
unfolding remove_from_free_list
remove-headed s b n back next = simp (back, next)

headed-Linked :
    (s : Mm) (b : ℕ) (ys : List ℕ)
    → Placed ys
    → Linked s b (head_or_null ys) ys
    → let s' = headed (head_or_null ys) s in Linked s' 0 s'.free_block_pointer ys
headed-Linked s b [] placed h = refl
headed-Linked s b (y ∷ ys) (within, apart, placed) h =
    let some_y : (y == 0) ≡ false = ground arith in
    let s' = record s { free_block_pointer = y } in
    let joined : headed y s ≡ put s' (prev_node y) 0 = rw some_y refl in
    subst (λ t. Linked t 0 t.free_block_pointer (y ∷ ys)) (sym joined)
      (put-Linked_head s' 0 b y y ys (omega arith) apart h)

remove_first :
    (s : Mm) (b : ℕ) (ys : List ℕ)
    → Linked s 0 s.free_block_pointer (b ∷ ys)
    → Placed (b ∷ ys)
    → let s' = remove_from_free_list b s in Linked s' 0 s'.free_block_pointer ys
remove_first s b ys (at, there, back, rest) (within, apart, placed) =
    let n : load s (next_node b) ≡ head_or_null ys = Linked-head s b _ ys rest in
    subst (λ t. Linked t 0 t.free_block_pointer ys)
      (sym (remove-headed s b (head_or_null ys) back n))
      (headed-Linked s b ys placed (rw (← n) rest))

remove_later :
    (s : Mm) (xs : List ℕ) (q b : ℕ) (ys : List ℕ)
    → Linked s 0 s.free_block_pointer (xs ++ q ∷ b ∷ ys)
    → Placed (xs ++ q ∷ b ∷ ys)
    → let s' = remove_from_free_list b s in Linked s' 0 s'.free_block_pointer (xs ++ q ∷ ys)
remove_later s xs q b ys h placed =
    let n = head_or_null ys in
    let (back, next, there, small, apart, apart_n) =
      Linked-mid s 0 s.free_block_pointer xs q b ys h placed in
    let kept : (neighbours q n s).free_block_pointer ≡ s.free_block_pointer = ground arith in
    subst (λ t. Linked t 0 t.free_block_pointer (xs ++ q ∷ ys))
      (sym (remove-neighbours s q b n back next there apart))
      (subst (λ f. Linked (neighbours q n s) 0 f (xs ++ q ∷ ys)) (sym kept)
        (neighbours-Linked s 0 s.free_block_pointer xs q b ys h placed))

-- That a block goes out of the list between `xs` and `ys`.
abbrev Goes : Mm → ℕ → List ℕ → List ℕ → Type 0
Goes s b ys xs =
    Linked s 0 s.free_block_pointer (xs ++ b ∷ ys)
    → Placed (xs ++ b ∷ ys)
    → let s' = remove_from_free_list b s in Linked s' 0 s'.free_block_pointer (xs ++ ys)

snoc-Goes : (s : Mm) (b : ℕ) (ys zs : List ℕ) (q : ℕ) → Goes s b ys (zs ++ q ∷ [])
snoc-Goes s b ys zs q h placed =
    let t = remove_from_free_list b s in
    let around = append_assoc zs (q ∷ []) (b ∷ ys) in
    subst (Linked t 0 t.free_block_pointer) (sym (append_assoc zs (q ∷ []) ys)) (
      remove_later s zs q b ys (subst (Linked s 0 s.free_block_pointer) around h)
        (subst Placed around placed))

-- In a list of blocks that do not overlap, at addresses of 64 bits, wherever the block stands, first,
-- last or between: `remove_from_free_list` leaves the doubly linked list of the others, in their
-- order.
pub remove_from_free_list-Linked :
    (s : Mm) (xs : List ℕ) (b : ℕ) (ys : List ℕ)
    → Linked s 0 s.free_block_pointer (xs ++ b ∷ ys)
    → Placed (xs ++ b ∷ ys)
    → let s' = remove_from_free_list b s in Linked s' 0 s'.free_block_pointer (xs ++ ys)
remove_from_free_list-Linked s xs b ys h placed = elim (snoc_cases xs) [
  | inl e ↦ subst (Goes s b ys) (sym e) (remove_first s b ys) h placed
  | inr (zs, q, e) ↦ subst (Goes s b ys) (sym e) (snoc-Goes s b ys zs q) h placed
]
