-- ===== src/Malloc/Relink.antt =====
-- remove_from_free_list and add_to_free_list leave the blocks of the heap as they are.
use cmpsc_473_operating_syst.Common.{
  ℕ, ◌+◌, ◌≤◌, ◌<◌, ◌≡◌, refl, ◌∙◌, ◌⊎◌, inl, inr, arith, Bool, List, [], ◌∷◌, ◌++◌,
}
use mathlib.Core.Path.{subst}
use cmpsc_473_operating_syst.Memlib.{MemLib}
use cmpsc_473_operating_syst.Malloc.{
  Mm, load, next_node, prev_node, remove_from_free_list, add_to_free_list,
}
use cmpsc_473_operating_syst.Malloc.FreeList.{
  Linked, Placed, Outside, load-put_ne, add_to_free_list-cons,
}
use cmpsc_473_operating_syst.Malloc.Unlink.{remove_from_free_list-Linked}
use cmpsc_473_operating_syst.Malloc.Blocks.{Row, row_end, vacant, vacancies, vacancies-append}
use cmpsc_473_operating_syst.Malloc.Vacancies.{In, In-append}
use cmpsc_473_operating_syst.Malloc.Closed.{remove-kept, add-kept}
use cmpsc_473_operating_syst.Malloc.Around.{low, Around, Around-link, Linkable}
use cmpsc_473_operating_syst.Malloc.Invariant.{Shape}

-- A word outside the links of the list is read as before.
pub load-remove :
    (s : Mm) (a b : ℕ) (ys zs : List ℕ)
    → Linked s 0 s.free_block_pointer (ys ++ b ∷ zs)
    → Placed (ys ++ b ∷ zs)
    → ((x : ℕ) → In x (ys ++ b ∷ zs) → Outside a x)
    → load (remove_from_free_list b s) a ≡ load s a
load-remove s a b ys zs h placed out =
    remove-kept (ys ++ b ∷ zs) (λ t. load t a ≡ load s a)
      (λ t x v i e. load-put_ne t (next_node x) v a (let o = out x i in ground arith) ∙ e)
      (λ t x v i e. load-put_ne t (prev_node x) v a (let o = out x i in ground arith) ∙ e)
      (λ t x e. e) s b ys zs h placed (λ x i. i) refl

Linked-pointer : (s : Mm) (p : ℕ) (xs : List ℕ) → Linked s 0 p xs → (p ≡ 0) ⊎ In p xs
Linked-pointer s p [] h = inl h
Linked-pointer s p (x ∷ xs) h = inr (inl h.0)

Linked-pointer_cons : (s : Mm) (b p : ℕ) (xs : List ℕ) → Linked s 0 p xs → (p ≡ 0) ⊎ In p (b ∷ xs)
Linked-pointer_cons s b p xs h = elim (Linked-pointer s p xs h) [
  | inl e ↦ inl e
  | inr i ↦ inr (inr i)
]

pub load-add :
    (s : Mm) (a b : ℕ) (xs : List ℕ)
    → Linked s 0 s.free_block_pointer xs
    → ((x : ℕ) → In x (b ∷ xs) → Outside a x)
    → load (add_to_free_list b s) a ≡ load s a
load-add s a b xs h out =
    add-kept (b ∷ xs) (λ t. load t a ≡ load s a)
      (λ t x v i e. load-put_ne t (next_node x) v a (let o = out x i in ground arith) ∙ e)
      (λ t x v i e. load-put_ne t (prev_node x) v a (let o = out x i in ground arith) ∙ e)
      (λ t x e. e) s b (inl refl) (Linked-pointer_cons s b s.free_block_pointer xs h) refl

module _ (lib : MemLib) (ls rs : Row) (hi : ℕ) (order : low lib ls rs hi ≤ hi) (u : Bool) where
  pub Shape-remove :
      (s : Mm) (b : ℕ) (ys zs : List ℕ)
      → Placed (ys ++ b ∷ zs)
      → ((x : ℕ) → In x (ys ++ b ∷ zs) → Linkable lib ls rs hi x)
      → Shape lib ls rs hi (ys ++ b ∷ zs) u s
      → Shape lib ls rs hi (ys ++ zs) u (remove_from_free_list b s)
  Shape-remove s b ys zs placed all (around, h) = (
    remove-kept (ys ++ b ∷ zs) (Around lib ls rs hi u)
        (λ t x v i p. Around-link lib ls rs hi u t x (next_node x) v order (all x i) (inl refl) p)
        (λ t x v i p. Around-link lib ls rs hi u t x (prev_node x) v order (all x i) (inr refl) p)
        (λ t x p. p) s b ys zs h placed (λ x i. i) around,
    remove_from_free_list-Linked s ys b zs h placed,
  )

  pub Shape-add :
      (s : Mm) (b : ℕ) (xs : List ℕ)
      → 0 < b
      → Placed (b ∷ xs)
      → ((x : ℕ) → In x (b ∷ xs) → Linkable lib ls rs hi x)
      → Shape lib ls rs hi xs u s
      → Shape lib ls rs hi (b ∷ xs) u (add_to_free_list b s)
  Shape-add s b xs there placed all (around, h) = (
    add-kept (b ∷ xs) (Around lib ls rs hi u)
        (λ t x v i p. Around-link lib ls rs hi u t x (next_node x) v order (all x i) (inl refl) p)
        (λ t x v i p. Around-link lib ls rs hi u t x (prev_node x) v order (all x i) (inr refl) p)
        (λ t x p. p) s b (inl refl) (Linked-pointer_cons s b s.free_block_pointer xs h) around,
    add_to_free_list-cons s b xs there placed h,
  )

-- The links of the free blocks beside a free one, and its own, may be written.
pub vacancies-Linkable :
    (lib : MemLib) (ls : Row) (k : ℕ) (rs : Row)
    → 32 ≤ k
    → (x : ℕ) → In x (vacancies (lib.heap + 8) (ls ++ vacant k ∷ rs))
    → Linkable lib ls rs (row_end (lib.heap + 8) ls + k) x
vacancies-Linkable lib ls k rs large x i =
    let a = lib.heap + 8 in
    elim (In-append x (vacancies a ls) _ (subst (In x) (vacancies-append a ls (vacant k ∷ rs)) i)) [
      | inl l ↦ inr (inl l)
      | inr (inl e) ↦ inl (omega arith, omega arith)
      | inr (inr m) ↦ inr (inr m)
    ]
