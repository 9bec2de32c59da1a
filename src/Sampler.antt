-- ===== src/Sampler.antt =====
-- assignment-2-malloclab-FreezeKickerz/fcyc.c: measurements are repeated until the best of them agree.
-- A time is a whole number of some unit, and `epsilon` a fraction of such numbers.
pub mod Best
mod Sift
pub mod Kept
pub mod Least
mod Tests
use cmpsc_473_operating_syst.Common.{
  ℕ, zero, suc, ◌+◌, ◌-◌, ◌*◌, Bool, true, false, ◌&&◌, not, Option, none, some, List, [], ◌∷◌, ltb,
  leb, ◌==◌, if◌then◌else◌, get_elem?, set,
}

-- The variables of the sampler; the settings stand in `Limits`.
pub record Sampler : Type 0 where
  pub values : List ℕ
  pub samplecount : ℕ

pub record Limits : Type 0 where
  pub kbest : ℕ
  pub maxsamples : ℕ
  pub epsilon_num : ℕ
  pub epsilon_den : ℕ

abbrev pub zeros : ℕ → List ℕ
zeros zero = []
zeros (suc n) = 0 ∷ zeros n

-- An element of the array, which is read within it only.
abbrev pub at_index : List ℕ → ℕ → ℕ
at_index xs i = elim (get_elem? xs i) [ none ↦ 0 | some x ↦ x ]

unfoldable pub init_sampler : Limits → Sampler
init_sampler l = record { values = zeros l.kbest; samplecount = 0 }

-- The insertion sort, from `pos` down.
unfoldable pub sift : ℕ → List ℕ → List ℕ
sift zero xs = xs
sift (suc pos) xs =
    let left = at_index xs pos in
    let here = at_index xs (suc pos) in
    let moved = sift pos (set (set xs pos here) (suc pos) left) in
    if ltb here left then moved else xs

unfoldable pub add_sample : Limits → ℕ → Sampler → Sampler
unfolding sift
add_sample l val s =
    let count = s.samplecount in
    let values =
      if ltb count l.kbest
      then sift count (set s.values count val)
      else if ltb val (at_index s.values (l.kbest - 1))
      then sift (l.kbest - 1) (set s.values (l.kbest - 1) val)
      else s.values in
    record { values = values; samplecount = count + 1 }

-- `(1 + epsilon) * values[0] >= values[kbest - 1]`
unfoldable pub has_converged : Limits → Sampler → Bool
has_converged l s =
    leb l.kbest s.samplecount
    && leb (l.epsilon_den * at_index s.values (l.kbest - 1))
        ((l.epsilon_den + l.epsilon_num) * at_index s.values 0)

abbrev pub add_if_positive : Limits → ℕ → Sampler → Sampler
add_if_positive l t s = if ltb 0 t then add_sample l t s else s

-- The second loop of `fcyc` and of `fsec`, on the times for one repetition that the timer gives, one for
-- each round. The result is `values[0]`; `none` where the times end before the loop does.
unfoldable pub take_samples : Limits → List ℕ → Sampler → Option ℕ
unfolding add_sample has_converged
take_samples l [] s = none
take_samples l (t ∷ times) s =
    let s' = add_if_positive l t s in
    let rest = take_samples l times s' in
    if not (has_converged l s') && ltb s'.samplecount l.maxsamples
    then rest
    else some (at_index s'.values 0)

-- The first loop, from its first round on: the number of repetitions, doubled until the time is long
-- enough. `none` where the times end before the loop does.
unfoldable pub enough_reps : (min_time : ℕ) → List ℕ → (reps : ℕ) → Option ℕ
enough_reps min_time [] reps = none
enough_reps min_time (t ∷ times) reps =
    let rest = enough_reps min_time times (reps + reps) in
    if ltb t min_time then rest else some reps

-- The first loop, which is passed over where no time is asked for.
unfoldable pub reps_for : (min_time : ℕ) → List ℕ → (min_reps : ℕ) → Option ℕ
unfolding enough_reps
reps_for min_time trials min_reps =
    if ltb 0 min_time then enough_reps min_time trials min_reps else some min_reps

-- What `fcyc` and `fsec` give, for the least time that `init_min_time` leaves. The first list is the
-- times of the first loop, the second that of the second one.
unfoldable pub fsec : Limits → (min_time min_reps : ℕ) → (trials times : List ℕ) → Option ℕ
unfolding take_samples reps_for init_sampler
fsec l min_time min_reps trials times = elim (reps_for min_time trials min_reps) [
  | none ↦ none
  | some reps ↦ take_samples l times (init_sampler l)
]
