-- ===== src/Sampler/Tests.antt =====
-- Runs of the sampler, and its theorems at concrete samples.
use cmpsc_473_operating_syst.Common.{◌≡◌, refl, arith, inl, inr, some, none, [], ◌∷◌}
use cmpsc_473_operating_syst.Sampler.{Sampler, Limits, add_sample, enough_reps, fsec}
use cmpsc_473_operating_syst.Sampler.Kept.{Holds, add_sample-Holds}
use cmpsc_473_operating_syst.Sampler.Least.{Sampled, fsec-Sampled}

-- The default settings.
abbrev defaults : Limits
defaults = record { kbest = 3; maxsamples = 20; epsilon_num = 1; epsilon_den = 100 }

abbrev two_best : Limits
two_best = record { kbest = 2; maxsamples = 4; epsilon_num = 1; epsilon_den = 100 }

abbrev four : Sampler
four = record { values = 10 ∷ 20 ∷ 30 ∷ []; samplecount = 4 }

add_better : add_sample defaults 15 four ≡ record { values = 10 ∷ 15 ∷ 20 ∷ []; samplecount = 5 }
unfolding add_sample
add_better = refl

add_worse : add_sample defaults 35 four ≡ record { values = 10 ∷ 20 ∷ 30 ∷ []; samplecount = 5 }
unfolding add_sample
add_worse = refl

-- The reading of 0 is passed over, and the last two agree.
measured : fsec two_best 10 8 (3 ∷ 6 ∷ 12 ∷ []) (300 ∷ 0 ∷ 200 ∷ 201 ∷ 100 ∷ []) ≡ some 200
unfolding fsec
measured = refl

doubled : enough_reps 10 (3 ∷ 6 ∷ 12 ∷ []) 8 ≡ some 32
unfolding enough_reps
doubled = refl

-- The times end first.
too_few : fsec two_best 0 8 [] (300 ∷ 200 ∷ []) ≡ none
unfolding fsec
too_few = refl

add_sample-Holds_example :
    Holds defaults (15 ∷ 30 ∷ 10 ∷ 40 ∷ 20 ∷ []) (add_sample defaults 15 four)
add_sample-Holds_example =
    add_sample-Holds defaults 15 (30 ∷ 10 ∷ 40 ∷ 20 ∷ []) four (omega arith) (refl, refl)

fsec-Sampled_example :
    Sampled two_best
      (300 ∷ 200 ∷ 201 ∷ 100 ∷ [])
      []
      (fsec two_best 10 8 (3 ∷ 12 ∷ []) (300 ∷ 200 ∷ 201 ∷ 100 ∷ []))
fsec-Sampled_example =
    fsec-Sampled two_best 10 8 (3 ∷ 12 ∷ []) (300 ∷ 200 ∷ 201 ∷ 100 ∷ []) (omega arith)
      (inr (inr (inl (omega arith)))) (omega arith, (omega arith, (omega arith, (omega arith, tt))))
      (omega arith) (omega arith)
