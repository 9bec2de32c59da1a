-- ===== src/Sampler/Least.antt =====
-- The loop of `fcyc` and `fsec` that takes the samples.
use cmpsc_473_operating_syst.Common.{
  ℕ, zero, suc, ◌+◌, ◌-◌, ◌≤◌, ◌<◌, ◌≡◌, refl, ap, sym, ◌∙◌, ◌⊎◌, inl, inr, arith, true, Option,
  some, none, List, [], ◌∷◌, ◌++◌, ltb, if◌then◌else◌, Bool-cases, length,
}
use mathlib.Core.Path.{subst}
use cmpsc_473_operating_syst.Sampler.{
  Sampler, Limits, zeros, at_index, add_sample, add_if_positive, has_converged, take_samples,
  enough_reps, init_sampler, reps_for, fsec,
}
use cmpsc_473_operating_syst.Sampler.Best.{insert, take, sorted}
use cmpsc_473_operating_syst.Sampler.Kept.{Holds, add_sample-Holds}

-- The least value of a list that has one.
abbrev pub least : List ℕ → ℕ
least [] = 0
least (v ∷ []) = v
least (v ∷ w ∷ vs) = if ltb v (least (w ∷ vs)) then v else least (w ∷ vs)

-- The samples `ws`, in the order they come, after the samples `vs`, the latest one first.
abbrev pub onto : List ℕ → List ℕ → List ℕ
onto [] vs = vs
onto (w ∷ ws) vs = onto ws (w ∷ vs)

abbrev pub AllPositive : List ℕ → Type 0
AllPositive [] = Unit {0}
AllPositive (t ∷ times) = (0 < t) × AllPositive times

-- Some of the times are taken in order, at least one, up to where the samples have converged or are as
-- many as allowed, and the result is the least of all samples.
abbrev pub Sampled : Limits → List ℕ → List ℕ → Option ℕ → Type 0
Sampled l times vs result =
    (ws : List ℕ) × (more : List ℕ) × (s : Sampler) × (times ≡ ws ++ more)
    × ((0 < length ws)
        × (Holds l (onto ws vs) s
            × (((has_converged l s ≡ true) ⊎ (l.maxsamples ≤ length (onto ws vs)))
                × (result ≡ some (least (onto ws vs))))))

insert-first :
    (v : ℕ) (ys : List ℕ)
    → 0 < length ys
    → at_index (insert v ys) 0 ≡ (if ltb v (at_index ys 0) then v else at_index ys 0)
insert-first v [] h = absurd (omega arith)
insert-first v (y ∷ ys) h = elim (Bool-cases (ltb v y)) [
  | inl less ↦ rw less refl
  | inr more ↦ rw more refl
]

insert-some : (v : ℕ) (ys : List ℕ) → 0 < length (insert v ys)
insert-some v [] = omega arith
insert-some v (y ∷ ys) = elim (Bool-cases (ltb v y)) [
  | inl less ↦ rw less (omega arith)
  | inr more ↦ rw more (omega arith)
]

sorted-least : (vs : List ℕ) → at_index (sorted vs) 0 ≡ least vs
sorted-least [] = refl
sorted-least (v ∷ []) = refl
sorted-least (v ∷ w ∷ vs) =
    insert-first v (sorted (w ∷ vs)) (insert-some w (sorted vs))
    ∙ ap (λ t. if ltb v t then v else t) (sorted-least (w ∷ vs))

take-first :
    (k : ℕ) (xs ys : List ℕ) → 0 < k → 0 < length xs → at_index (take k xs ++ ys) 0 ≡ at_index xs 0
take-first zero xs ys h some_left = absurd (omega arith)
take-first (suc k) [] ys h some_left = absurd (omega arith)
take-first (suc k) (x ∷ xs) ys h some_left = refl

-- The result, after a sample at least.
first-least :
    (l : Limits) (v : ℕ) (vs : List ℕ) (s : Sampler)
    → 0 < l.kbest
    → Holds l (v ∷ vs) s
    → at_index s.values 0 ≡ least (v ∷ vs)
first-least l v vs s some_best (count, values) =
    ap (λ t. at_index t 0) values
    ∙ take-first l.kbest (sorted (v ∷ vs)) (zeros (l.kbest - suc (length vs))) some_best
        (insert-some v (sorted vs))
    ∙ sorted-least (v ∷ vs)

add_if_positive-pos :
    (l : Limits) (t : ℕ) (s : Sampler) → 0 < t → add_if_positive l t s ≡ add_sample l t s
add_if_positive-pos l t s h = let e : ltb 0 t ≡ true = ground arith in rw e refl

Sampled-step :
    (l : Limits) (t : ℕ) (times vs : List ℕ) (result : Option ℕ)
    → Sampled l times (t ∷ vs) result
    → Sampled l (t ∷ times) vs result
Sampled-step l t times vs result (ws, more, s, e, (some_taken, rest)) =
    (t ∷ ws, more, s, ap (λ (x : List ℕ). t ∷ x) e, (omega arith, rest))

-- The loop ends.
take_samples-Sampled :
    (l : Limits) (times vs : List ℕ) (s : Sampler)
    → 0 < l.kbest
    → Holds l vs s
    → AllPositive times
    → 0 < length times
    → l.maxsamples ≤ length vs + length times
    → Sampled l times vs (take_samples l times s)
unfolding take_samples
take_samples-Sampled l [] vs s some_best held pos some_time enough = absurd (omega arith)
take_samples-Sampled l (t ∷ times) vs s some_best held (pos, rest) some_time enough =
    let s' = add_sample l t s in
    let held' : Holds l (t ∷ vs) s' = add_sample-Holds l t vs s some_best held in
    let stop : ((has_converged l s' ≡ true) ⊎ (l.maxsamples ≤ length (t ∷ vs)))
        → Sampled l (t ∷ times) vs (some (at_index s'.values 0)) =
      λ why. (
        t ∷ [],
        times,
        s',
        refl,
        (omega arith, (held', (why, ap some (first-least l t vs s' some_best held')))),
      ) in
    rw (add_if_positive-pos l t s pos) (elim (Bool-cases (has_converged l s')) [
      | inl converged ↦ rw converged (stop (inl converged))
      | inr apart ↦ rw apart (elim (Bool-cases (ltb s'.samplecount l.maxsamples)) [
        | inl room ↦
            let few : length vs + 1 < l.maxsamples = ground (arith, held'.0, room) in
            rw room (
              Sampled-step l t times vs (take_samples l times s') (
                take_samples-Sampled l times (t ∷ vs) s' some_best held' rest (omega arith)
                  (omega arith)))
        | inr done ↦ rw done (stop (inr (ground (arith, held'.0, done))))
      ])
    ])

abbrev pub Reaches : ℕ → List ℕ → Type 0
Reaches min_time [] = ⊥
Reaches min_time (t ∷ times) = (min_time ≤ t) ⊎ Reaches min_time times

enough_reps-some :
    (min_time : ℕ) (trials : List ℕ) (reps : ℕ)
    → Reaches min_time trials
    → (n : ℕ) × (enough_reps min_time trials reps ≡ some n)
unfolding enough_reps
enough_reps-some min_time [] reps h = absurd h
enough_reps-some min_time (t ∷ trials) reps h = elim (Bool-cases (ltb t min_time)) [
  | inl short ↦
      let later : Reaches min_time trials = elim h [
        | inl reached ↦ absurd (ground arith)
        | inr later ↦ later
      ] in
      let (n, e) = enough_reps-some min_time trials (reps + reps) later in (n, rw short e)
  | inr long ↦ (reps, rw long refl)
]

reps_for-some :
    (min_time : ℕ) (trials : List ℕ) (min_reps : ℕ)
    → (min_time ≡ 0) ⊎ Reaches min_time trials
    → (n : ℕ) × (reps_for min_time trials min_reps ≡ some n)
unfolding reps_for
reps_for-some min_time trials min_reps timed = elim (Bool-cases (ltb 0 min_time)) [
  | inl asked ↦
      let reached : Reaches min_time trials = elim timed [
        | inl none_asked ↦ absurd (ground arith)
        | inr reached ↦ reached
      ] in
      rw asked (enough_reps-some min_time trials min_reps reached)
  | inr none_asked ↦ rw none_asked ((min_reps, refl))
]

take_nil : (n : ℕ) → take n [] ≡ []
take_nil zero = refl
take_nil (suc n) = refl

init_sampler-Holds : (l : Limits) → Holds l [] (init_sampler l)
unfolding init_sampler
init_sampler-Holds l = (
  refl,
  ap (λ t. t ++ zeros l.kbest) (sym (take_nil l.kbest))
      ∙ ap (λ (n : ℕ). take l.kbest [] ++ zeros n)
          (let e : l.kbest ≡ l.kbest - 0 = omega arith in e),
)

-- A measurement ends, if the array has room for one sample at least, one of the trials takes `min_time`
-- or longer where that is not 0, and the times after them are positive, at least one, and as many as
-- the loop may take: it takes times in order, at least one, stops where the samples have converged or
-- are as many as allowed, and its result is the least of the samples.
pub fsec-Sampled :
    (l : Limits) (min_time min_reps : ℕ) (trials times : List ℕ)
    → 0 < l.kbest
    → (min_time ≡ 0) ⊎ Reaches min_time trials
    → AllPositive times
    → 0 < length times
    → l.maxsamples ≤ length times
    → Sampled l times [] (fsec l min_time min_reps trials times)
unfolding fsec
fsec-Sampled l min_time min_reps trials times some_best timed pos some_time enough =
    let sampled =
      take_samples-Sampled l times [] (init_sampler l) some_best (init_sampler-Holds l) pos
        some_time (omega arith) in
    let (n, e) = reps_for-some min_time trials min_reps timed in
    subst
      (λ (o : Option ℕ).
        Sampled l times []
          (elim o [ none ↦ none | some reps ↦ take_samples l times (init_sampler l) ]))
      (sym e) sampled
