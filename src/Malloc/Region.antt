-- ===== src/Malloc/Region.antt =====
-- Free blocks side by side in the heap: taken out of the list one by one, and written as one block.
use cmpsc_473_operating_syst.Common.{
  ℕ, ◌+◌, ◌-◌, ◌*◌, ◌/◌, ◌^◌, ◌≤◌, ◌<◌, ◌≡◌, refl, ap, sym, ◌∙◌, ◌⊎◌, inl, inr, arith, true, false,
  List, [], ◌∷◌, ◌++◌, length,
}
use mathlib.Core.Path.{subst}
use mathlib.Core.List.{append_assoc}
use cmpsc_473_operating_syst.Memlib.{MemLib}
use cmpsc_473_operating_syst.Malloc.{
  Mm, load, put, toggle_2, remove_from_free_list, add_to_free_list,
}
use cmpsc_473_operating_syst.Malloc.FreeList.{Placed, Outside, load-put, load-put_ne}
use cmpsc_473_operating_syst.Malloc.Blocks.{
  vacant, Row, row_end, row_end-le, row_end-append, last_used, flag, Sized,
}
use cmpsc_473_operating_syst.Malloc.Vacancies.{In, Same, In-append, In-split, In-left, In-right}
use cmpsc_473_operating_syst.Malloc.Members.{
  NotIn, Placed-around, Placed-NotIn, Same-around, length-around,
}
use cmpsc_473_operating_syst.Malloc.Around.{Linkable, toggle_2_clear}
use cmpsc_473_operating_syst.Malloc.Invariant.{IsHeap, Fits, Beside, Shape, Shape-put}
use cmpsc_473_operating_syst.Malloc.Relink.{load-remove, Shape-remove}
use cmpsc_473_operating_syst.Malloc.Listed.{outer, outer-apart, outer-Linkable, IsHeap-listed}

module _ (lib : MemLib) (ls rs : Row) (hi : ℕ) where
  abbrev lo : ℕ
  lo = row_end (lib.heap + 8) ls

  -- The list leads through the free blocks outside the region and those at `ns` in it.
  pub record Region (ns xs : List ℕ) (s : Mm) : Type 0 where
    pub shape : Shape lib ls rs hi xs false s
    pub placed : Placed xs
    pub same : Same xs (ns ++ outer lib ls rs hi)
    pub counted : length xs ≡ length (ns ++ outer lib ls rs hi)

  -- Addresses of blocks in the region.
  abbrev pub Inside : List ℕ → Type 0
  Inside ns = (x : ℕ) → In x ns → (lo ≤ x) × (x + 32 ≤ hi)

  -- A header in the region.
  abbrev pub Header : List ℕ → ℕ → Type 0
  Header ns w =
      (lo ≤ w) × (w + 8 ≤ hi) × ((y : ℕ) → In y ns → (w ≡ y) ⊎ ((w + 32 ≤ y) ⊎ (y + 32 ≤ w)))

  module _ (s : Mm) (ns xs : List ℕ) (region : Region ns xs s) (inside : Inside ns)
      (room : lo + 32 ≤ hi) where
    region-Linkable : (x : ℕ) → In x xs → Linkable lib ls rs hi x
    region-Linkable x i = elim (In-append x ns (outer lib ls rs hi) ((region.same x).0 i)) [
      | inl n ↦ inl (omega (arith, inside x n), omega (arith, inside x n))
      | inr o ↦ outer-Linkable lib ls rs hi x o
    ]

    Header-Outside : (w : ℕ) → Header ns w → (x : ℕ) → In x xs → Outside w x
    Header-Outside w (above, below, other) x i =
        elim (In-append x ns (outer lib ls rs hi) ((region.same x).0 i)) [
          | inl n ↦ let o = other x n in ground arith
          | inr o ↦
              let p = outer-apart lib ls rs hi false s region.shape.0 x o in
              let r = room in ground arith
        ]

  -- What is left when the block at `x` goes out of the list.
  pub Region-remove :
      (s : Mm) (ps : List ℕ) (x : ℕ) (qs xs : List ℕ)
      → Region (ps ++ x ∷ qs) xs s
      → Inside (ps ++ x ∷ qs)
      → lo + 32 ≤ hi
      → NotIn x (ps ++ qs)
      → let s' = remove_from_free_list x s in
        (xs' : List ℕ) × (Region (ps ++ qs) xs' s'
          × ((w : ℕ) → Header (ps ++ x ∷ qs) w → load s' w ≡ load s w))
  Region-remove s ps x qs xs r inside room alone =
      let o = outer lib ls rs hi in
      let member : In x (ps ++ x ∷ qs) = In-right x ps (x ∷ qs) (inl refl) in
      let (ys, zs, e) = In-split x xs ((r.same x).1 (In-left x (ps ++ x ∷ qs) o member)) in
      let linked = subst (λ t. Shape lib ls rs hi t false s) e r.shape in
      let placed = subst Placed e r.placed in
      let around : (ps ++ x ∷ qs) ++ o ≡ ps ++ x ∷ (qs ++ o) = append_assoc ps (x ∷ qs) o in
      let rest : ps ++ (qs ++ o) ≡ (ps ++ qs) ++ o = sym (append_assoc ps qs o) in
      let same : Same (ys ++ x ∷ zs) (ps ++ x ∷ (qs ++ o)) =
        subst (Same (ys ++ x ∷ zs)) around (subst (λ t. Same t ((ps ++ x ∷ qs) ++ o)) e r.same) in
      let out : NotIn x (ps ++ (qs ++ o)) = λ i.
        elim (In-append x (ps ++ qs) o (subst (In x) rest i)) [
          | inl n ↦ alone n
          | inr p ↦ absurd (
              let far = outer-apart lib ls rs hi false s r.shape.0 x p in
              let near = inside x member in ground arith)
        ] in
      (
        ys ++ zs,
        (
          record {
            shape =
                Shape-remove lib ls rs hi (omega arith) false s x ys zs placed
                  (λ y i.
                    region-Linkable s (ps ++ x ∷ qs) xs r inside room y (subst (In y) (sym e) i))
                  linked;
            placed = Placed-around x ys zs placed;
            same =
                subst (Same (ys ++ zs)) rest
                  (Same-around x ys zs ps (qs ++ o) same (Placed-NotIn x ys zs placed) out);
            counted =
                length-around x ys zs ps (qs ++ o)
                  (ap length (sym e) ∙ r.counted ∙ ap length around)
                ∙ ap length rest;
          },
          λ w head. load-remove s w x ys zs linked.1 placed (λ y i.
              Header-Outside s (ps ++ x ∷ qs) xs r inside room w head y (subst (In y) (sym e) i)),
        ),
      )

-- The end of coalesce: header, footer and list.
abbrev pub merged : ℕ → ℕ → Mm → Mm
merged block size s =
    let s4 = put s block size in
    let s5 = put s4 block (toggle_2 (load s4 block)) in
    add_to_free_list block (put s5 (block + 8 * (size / 8) - 8) size)

pub merged-IsHeap :
    (lib : MemLib) (ls : Row) (k : ℕ) (rs : Row) (xs : List ℕ) (s : Mm)
    → let lo = row_end (lib.heap + 8) ls in
      Sized k
      → last_used true ls ≡ true
      → Fits lib (ls ++ vacant k ∷ rs)
      → Region lib ls rs (lo + k) [] xs s
      → ((merged lo k s).lib ≡ lib) × IsHeap (merged lo k s) (ls ++ vacant k ∷ rs) (lo ∷ xs)
merged-IsHeap lib ls k rs xs s sized before fits r =
    let a = lib.heap + 8 in
    let b = row_end a ls in
    let (low, align, end, most, limit) = fits in
    let z = sized in
    let behind : row_end (b + k) rs + 8 < 2 ^ 64 =
      omega (arith, row_end-append a ls (vacant k ∷ rs)) in
    let far = row_end-le (b + k) rs in
    let s4 = put s b k in
    let there : load s4 b ≡ k = load-put s b k (omega arith) in
    let toggled : toggle_2 (load s4 b) ≡ k + 2 =
      ap toggle_2 there ∙ toggle_2_clear k (omega arith) in
    let s5 = put s4 b (k + 2) in
    let s6 = put s5 (b + k - 8) k in
    let foot : b + 8 * (k / 8) - 8 ≡ b + k - 8 = omega arith in
    let written : merged b k s ≡ add_to_free_list b s6 =
      ap (λ t. add_to_free_list b (put (put s4 b t) (b + 8 * (k / 8) - 8) k)) toggled
      ∙ ap (λ t. add_to_free_list b (put s5 t k)) foot in
    let beside : Beside b (b + k) xs = λ x i.
      let p = outer-apart lib ls rs (b + k) false s r.shape.0 x ((r.same x).0 i) in ground arith in
    let shape_put = Shape-put lib ls rs (b + k) xs beside false in
    let shape =
      shape_put s5 (b + k - 8) k (omega arith, inr (omega arith, omega arith)) (omega arith)
        (shape_put s4 b (k + 2) (omega arith, inl refl) (omega arith)
          (shape_put s b k (omega arith, inl refl) (omega arith) r.shape)) in
    let header : load s6 b ≡ k + flag (last_used true ls) =
      load-put_ne s5 (b + k - 8) k b (inl (omega arith))
      ∙ load-put s4 b (k + 2) (omega (arith, row_end-le a ls))
      ∙ ap (λ t. k + flag t) (sym before) in
    subst (λ t. (t.lib ≡ lib) × IsHeap t (ls ++ vacant k ∷ rs) (b ∷ xs)) (sym written)
      (IsHeap-listed lib ls k rs xs s6 sized shape r.same r.placed r.counted fits header
        (load-put s5 (b + k - 8) k (omega arith)))
