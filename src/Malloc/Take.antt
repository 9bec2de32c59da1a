-- ===== src/Malloc/Take.antt =====
-- take_whole makes a free block an allocated one.
use cmpsc_473_operating_syst.Common.{
  ℕ, ◌+◌, ◌*◌, ◌/◌, ◌%◌, ◌^◌, ◌≤◌, ◌<◌, ◌≡◌, refl, ap, sym, ◌∙◌, inl, inr, arith, Bool, true, false,
  List, [], ◌∷◌, ◌++◌, length,
}
use mathlib.Core.Path.{subst}
use cmpsc_473_operating_syst.Memlib.{MemLib}
use cmpsc_473_operating_syst.Malloc.{
  Mm, load, put, has_2, with_1, toggle_2, remove_from_free_list, take_whole,
}
use cmpsc_473_operating_syst.Malloc.FreeList.{Placed, load-put, load-put_ne}
use cmpsc_473_operating_syst.Malloc.Blocks.{
  vacant, used, Row, row_end, row_end-le, row_end-append, last_used, vacancies, flag, Sized,
}
use cmpsc_473_operating_syst.Malloc.Vacancies.{In, Same, In-split, In-append, vacancies_within}
use cmpsc_473_operating_syst.Malloc.Members.{NotIn, Placed-around}
use cmpsc_473_operating_syst.Malloc.Around.{Runs, Runs-append, has_2-flag, toggle_2_clear}
use cmpsc_473_operating_syst.Malloc.Invariant.{IsHeap, Fits, Shape, Shape-put, Shape-flag, Beside}
use cmpsc_473_operating_syst.Malloc.Relink.{Shape-remove, load-remove}
use cmpsc_473_operating_syst.Malloc.Vacant.{HasVacant, IsHeap-HasVacant, Same-taken, length-taken}

-- A header written, and again with its mark.
abbrev marked : ℕ → ℕ → Bool → Mm → Mm
marked b n true s = put (put s b n) b (n + 2)
marked b n false s = put s b n

load-marked : (s : Mm) (b n : ℕ) (u : Bool) → n + 2 < 2 ^ 64 → load (marked b n u s) b ≡ n + flag u
load-marked s b n true small = load-put (put s b n) b (n + 2) small
load-marked s b n false small = load-put s b n (omega arith) ∙ omega arith

take_whole-marked :
    (s : Mm) (b k : ℕ) (u : Bool)
    → load s b ≡ k + flag u
    → k % 16 ≡ 0
    → k + 3 < 2 ^ 64
    → let s2 = marked b (k + 1) u s in
      take_whole b k s
      ≡ (b + 8, remove_from_free_list b (put s2 (b + k) (toggle_2 (load s2 (b + k)))))
unfolding take_whole
take_whole-marked s b k true header sized small =
    let one : with_1 k ≡ k + 1 = ground arith in
    let there : load (put s b (k + 1)) b ≡ k + 1 = load-put s b (k + 1) (omega arith) in
    let mark : has_2 (k + flag true) ≡ true = has_2-flag k true (omega arith) in
    let toggled : toggle_2 (k + 1) ≡ k + 1 + 2 = toggle_2_clear (k + 1) (omega arith) in
    let at : 8 * (k / 8) ≡ k = omega arith in simp (header, one, mark, there, toggled, at)
take_whole-marked s b k false header sized small =
    let one : with_1 k ≡ k + 1 = ground arith in
    let mark : has_2 (k + flag false) ≡ false = has_2-flag k false (omega arith) in
    let at : 8 * (k / 8) ≡ k = omega arith in simp (header, one, mark, at)

-- No other free block stands at the address of one.
pub NotIn-around :
    (s : Mm) (ls : Row) (k : ℕ) (rs : Row) (xs : List ℕ) (u : Bool)
    → let b = row_end (s.lib.heap + 8) ls in
      32 ≤ k
      → Shape s.lib ls rs (b + k) xs u s
      → NotIn b (vacancies (s.lib.heap + 8) ls ++ vacancies (b + k) rs)
NotIn-around s ls k rs xs u large ((same, left, right), linked) i =
    let a = s.lib.heap + 8 in
    let b = row_end a ls in
    elim (In-append b (vacancies a ls) (vacancies (b + k) rs) i) [
      | inl l ↦ absurd (omega (arith, vacancies_within s.mem true a b ls left l))
      | inr r ↦ absurd (omega (arith, vacancies_within s.mem u (b + k) b rs right.0 r))
    ]

-- An allocated block in the middle of the heap.
pub IsHeap-used :
    (s : Mm) (lib : MemLib) (ls : Row) (k : ℕ) (rs : Row) (xs : List ℕ)
    → let b = row_end (lib.heap + 8) ls in
      let c = λ (i : ℕ). s.mem (b + 8 + i) in
      let bs = ls ++ used k c ∷ rs in
      Sized k
      → Fits lib bs
      → Shape lib ls rs (b + k) xs true s
      → load s b ≡ k + 1 + flag (last_used true ls)
      → Placed xs
      → Same xs (vacancies (lib.heap + 8) bs)
      → length xs ≡ length (vacancies (lib.heap + 8) bs)
      → IsHeap s bs xs
IsHeap-used s lib ls k rs xs sized fits ((same_lib, left, right), linked) header placed same
      counted =
    let b = row_end (lib.heap + 8) ls in
    let bs = ls ++ used k (λ (i : ℕ). s.mem (b + 8 + i)) ∷ rs in
    record {
      fits = subst (λ l. Fits l bs) (sym same_lib) fits;
      runs =
          subst (λ l. Runs s.mem true (l.heap + 8) bs) (sym same_lib)
            (Runs-append s.mem true (lib.heap + 8) ls (used k (λ (i : ℕ). s.mem (b + 8 + i)) ∷ rs)
              left (((sized, header, λ i small. refl), right.0), right.1));
      linked = linked;
      placed = placed;
      same = subst (λ l. Same xs (vacancies (l.heap + 8) bs)) (sym same_lib) same;
      counted = subst (λ l. length xs ≡ length (vacancies (l.heap + 8) bs)) (sym same_lib) counted;
    }

Shape-marked :
    (lib : MemLib) (ls rs : Row) (hi : ℕ) (xs : List ℕ) (u v : Bool) (s : Mm) (n : ℕ)
    → let b = row_end (lib.heap + 8) ls in
      Beside b hi xs
      → b + 24 ≤ hi
      → Shape lib ls rs hi xs v s
      → Shape lib ls rs hi xs v (marked b n u s)
Shape-marked lib ls rs hi xs true v s n beside room shape =
    let b = row_end (lib.heap + 8) ls in
    Shape-put lib ls rs hi xs beside v (put s b n) b (n + 2) (room, inl refl) (omega arith)
      (Shape-put lib ls rs hi xs beside v s b n (room, inl refl) (omega arith) shape)
Shape-marked lib ls rs hi xs false v s n beside room shape =
    let b = row_end (lib.heap + 8) ls in
    Shape-put lib ls rs hi xs beside v s b n (room, inl refl) (omega arith) shape

-- The headers of the block and of the one behind it: what they hold, and what stays.
take_headers :
    (s : Mm) (ls : Row) (k : ℕ) (rs : Row) (xs : List ℕ)
    → let b = row_end (s.lib.heap + 8) ls in
      HasVacant s ls k rs xs b
      → (s3 : Mm) × ((take_whole b k s ≡ (b + 8, remove_from_free_list b s3))
          × (load s3 b ≡ k + 1 + flag (last_used true ls))
          × Shape s.lib ls rs (b + k) xs true s3)
take_headers s ls k rs xs h =
    let b = row_end (s.lib.heap + 8) ls in
    let u = last_used true ls in
    let s2 = marked b (k + 1) u s in
    let large : 32 ≤ k = h.sized.0 in
    let fits = h.behind in
    let small : k + 3 < 2 ^ 64 = omega (arith, row_end-le (b + k) rs, h.before) in
    let (w, (word, mark, within, shaped)) =
      Shape-flag s.lib ls rs (b + k) xs h.beside false s2 (omega arith) (omega arith)
        (Shape-marked s.lib ls rs (b + k) xs u false s (k + 1) h.beside (omega arith) h.shape) in
    let word' : toggle_2 (load s2 (b + k)) ≡ w + 2 =
      ap toggle_2 (word ∙ (omega arith)) ∙ toggle_2_clear w mark in
    (
      put s2 (b + k) (w + 2),
      (
        take_whole-marked s b k u h.header h.sized.1 small
            ∙ ap (λ t. (b + 8, remove_from_free_list b (put s2 (b + k) t))) word',
        load-put_ne s2 (b + k) (w + 2) b (inl (omega arith))
            ∙ load-marked s b (k + 1) u (omega arith),
        shaped true,
      ),
    )

-- The list without the block.
take_unlinked :
    (s s3 : Mm) (ls : Row) (k : ℕ) (rs : Row) (ys zs : List ℕ)
    → let b = row_end (s.lib.heap + 8) ls in
      HasVacant s ls k rs (ys ++ b ∷ zs) b
      → Placed (ys ++ b ∷ zs)
      → load s3 b ≡ k + 1 + flag (last_used true ls)
      → Shape s.lib ls rs (b + k) (ys ++ b ∷ zs) true s3
      → let s' = remove_from_free_list b s3 in
        (load s' b ≡ k + 1 + flag (last_used true ls))
        × Shape s.lib ls rs (b + k) (ys ++ zs) true s'
take_unlinked s s3 ls k rs ys zs h placed header shape =
    let b = row_end (s.lib.heap + 8) ls in
    (
      load-remove s3 b b ys zs shape.1 placed (λ x i. let o = h.beside x i in ground arith)
          ∙ header,
      Shape-remove s.lib ls rs (b + k) (omega arith) true s3 b ys zs placed h.linkable shape,
    )

row_end-used :
    (a : ℕ) (ls : Row) (k : ℕ) (c : ℕ → ℕ) (rs : Row)
    → row_end a (ls ++ used k c ∷ rs) ≡ row_end a (ls ++ vacant k ∷ rs)
row_end-used a ls k c rs =
    row_end-append a ls (used k c ∷ rs) ∙ sym (row_end-append a ls (vacant k ∷ rs))

In-vacancies :
    (a : ℕ) (ls : Row) (k : ℕ) (rs : Row) → In (row_end a ls) (vacancies a (ls ++ vacant k ∷ rs))
In-vacancies a [] k rs = inl refl
In-vacancies a (vacant j ∷ ls) k rs = inr (In-vacancies (a + j) ls k rs)
In-vacancies a (used j c ∷ ls) k rs = In-vacancies (a + j) ls k rs

pub take_whole-IsHeap :
    (s : Mm) (ls : Row) (k : ℕ) (rs : Row) (xs : List ℕ)
    → IsHeap s (ls ++ vacant k ∷ rs) xs
    → let b = row_end (s.lib.heap + 8) ls in
      (s' : Mm) × (c : ℕ → ℕ) × (xs' : List ℕ) × ((take_whole b k s ≡ (b + 8, s'))
        × (s'.lib ≡ s.lib)
        × IsHeap s' (ls ++ used k c ∷ rs) xs')
take_whole-IsHeap s ls k rs xs h =
    let a = s.lib.heap + 8 in
    let b = row_end a ls in
    let member = (h.same b).1 (In-vacancies a ls k rs) in
    let (ys, zs, e) = In-split b xs member in
    let h' : IsHeap s (ls ++ vacant k ∷ rs) (ys ++ b ∷ zs) =
      subst (IsHeap s (ls ++ vacant k ∷ rs)) e h in
    let v = IsHeap-HasVacant s ls k rs (ys ++ b ∷ zs) h' in
    let (s3, (taken, header, shape)) = take_headers s ls k rs (ys ++ b ∷ zs) v in
    let (header', shape') = take_unlinked s s3 ls k rs ys zs v h'.placed header shape in
    let s' = remove_from_free_list b s3 in
    let c = λ (i : ℕ). s'.mem (b + 8 + i) in
    let out = NotIn-around s ls k rs (ys ++ b ∷ zs) false v.sized.0 v.shape in
    let (low, align, end, most, limit) = h'.fits in
    (
      s',
      c,
      ys ++ zs,
      (
        taken,
        shape'.0.0,
        IsHeap-used s' s.lib ls k rs (ys ++ zs) v.sized
            (low, align, ap (λ t. t + 8) (row_end-used a ls k c rs) ∙ end, most, limit) shape'
            header' (Placed-around b ys zs h'.placed)
            (Same-taken s.lib ls k rs c b refl ys zs h'.placed out h'.same)
            (length-taken s.lib ls k rs c b refl ys zs h'.counted),
      ),
    )
