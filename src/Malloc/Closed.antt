-- ===== src/Malloc/Closed.antt =====
-- What the writes to the links of free blocks keep, remove_from_free_list and add_to_free_list keep.
use cmpsc_473_operating_syst.Common.{
  snoc_cases, ℕ, ◌≡◌, refl, ap, sym, ◌∙◌, ◌⊎◌, inl, inr, arith, List, [], ◌∷◌, ◌++◌, ◌==◌,
  Bool-cases,
}
use mathlib.Core.Path.{subst}
use mathlib.Core.List.{append_assoc}
use cmpsc_473_operating_syst.Malloc.{
  Mm, put, next_node, prev_node, remove_from_free_list, add_to_free_list,
}
use cmpsc_473_operating_syst.Malloc.FreeList.{
  Linked, Placed, head_or_null, neighbours, linked_in, add_to_free_list-null, add_to_free_list-head,
}
use cmpsc_473_operating_syst.Malloc.Unlink.{
  Linked-head, Linked-mid, remove-neighbours, remove-headed, headed,
}
use cmpsc_473_operating_syst.Malloc.Vacancies.{In, In-right}

head_or_null-In : (ys : List ℕ) → (head_or_null ys ≡ 0) ⊎ In (head_or_null ys) ys
head_or_null-In [] = inl refl
head_or_null-In (y ∷ ys) = inr (inl refl)

module _ (xs : List ℕ) (P : Mm → Type 0)
    (next : (s : Mm) (x v : ℕ) → In x xs → P s → P (put s (next_node x) v))
    (prev : (s : Mm) (x v : ℕ) → In x xs → P s → P (put s (prev_node x) v))
    (head : (s : Mm) (x : ℕ) → P s → P (record s { free_block_pointer = x })) where
  neighbours-kept : (s : Mm) (q n : ℕ) → In q xs → (n ≡ 0) ⊎ In n xs → P s → P (neighbours q n s)
  neighbours-kept s q n i j p = elim (Bool-cases (n == 0)) [
    | inl last ↦ rw last (next s q n i p)
    | inr more ↦ rw more (
        prev (put s (next_node q) n) n q (elim j [ inl e ↦ absurd (ground arith) | inr k ↦ k ])
          (next s q n i p))
  ]

  headed-kept : (s : Mm) (n : ℕ) → (n ≡ 0) ⊎ In n xs → P s → P (headed n s)
  headed-kept s n j p = elim (Bool-cases (n == 0)) [
    | inl last ↦ rw last (head s n p)
    | inr more ↦ rw more (
        prev (record s { free_block_pointer = n }) n 0
          (elim j [ inl e ↦ absurd (ground arith) | inr k ↦ k ]) (head s n p))
  ]

  remove_after :
      (s : Mm) (b : ℕ) (zs ws : List ℕ) (q : ℕ)
      → Linked s 0 s.free_block_pointer (ws ++ q ∷ b ∷ zs)
      → Placed (ws ++ q ∷ b ∷ zs)
      → ((x : ℕ) → In x (ws ++ q ∷ b ∷ zs) → In x xs)
      → P s
      → P (remove_from_free_list b s)
  remove_after s b zs ws q h placed all p =
      let (back, after, there, small, apart, apart_n) =
        Linked-mid s 0 s.free_block_pointer ws q b zs h placed in
      subst P (sym (remove-neighbours s q b (head_or_null zs) back after there apart)) (
        neighbours-kept s q (head_or_null zs) (all q (In-right q ws (q ∷ b ∷ zs) (inl refl)))
          (elim (head_or_null-In zs) [
            | inl e ↦ inl e
            | inr i ↦ inr (all (head_or_null zs) (In-right _ ws (q ∷ b ∷ zs) (inr (inr i))))
          ])
          p)

  pub remove-kept :
      (s : Mm) (b : ℕ) (ys zs : List ℕ)
      → Linked s 0 s.free_block_pointer (ys ++ b ∷ zs)
      → Placed (ys ++ b ∷ zs)
      → ((x : ℕ) → In x (ys ++ b ∷ zs) → In x xs)
      → P s
      → P (remove_from_free_list b s)
  remove-kept s b ys zs h placed all p = elim (snoc_cases ys) [
    | inl e ↦
        let whole = ap (λ t. t ++ b ∷ zs) e in
        let (at, there, back, rest) = subst (Linked s 0 s.free_block_pointer) whole h in
        subst P (sym (remove-headed s b (head_or_null zs) back (Linked-head s b _ zs rest))) (
          headed-kept s (head_or_null zs)
            (elim (head_or_null-In zs) [
              | inl e' ↦ inl e'
              | inr i ↦ inr (all (head_or_null zs) (In-right _ ys (b ∷ zs) (inr i)))
            ])
            p)
    | inr (ws, q, e) ↦
        let whole = ap (λ t. t ++ b ∷ zs) e ∙ append_assoc ws (q ∷ []) (b ∷ zs) in
        remove_after s b zs ws q (subst (Linked s 0 s.free_block_pointer) whole h)
          (subst Placed whole placed) (λ x i. all x (subst (In x) (sym whole) i)) p
  ]

  -- A block that may be written becomes the first.
  pub add-kept :
      (s : Mm) (b : ℕ)
      → In b xs
      → (s.free_block_pointer ≡ 0) ⊎ In s.free_block_pointer xs
      → P s
      → P (add_to_free_list b s)
  add-kept s b i j p =
      let linked = next (put s (prev_node b) 0) b s.free_block_pointer i (prev s b 0 i p) in
      elim (Bool-cases (s.free_block_pointer == 0)) [
        | inl null ↦ subst P (sym (add_to_free_list-null b s null)) (head (linked_in b s) b linked)
        | inr more ↦ subst P (sym (add_to_free_list-head b s more)) (
            head (put (linked_in b s) (prev_node s.free_block_pointer) b) b (
              prev (linked_in b s) s.free_block_pointer b
                (elim j [ inl e ↦ absurd (ground arith) | inr k ↦ k ]) linked))
      ]
