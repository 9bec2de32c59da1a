-- ===== src/Scheduler/Sjf/Shortest.antt =====
-- The scan of `schedulerSJFCompleteJob` finds a shortest job.
use cmpsc_473_operating_syst.Common.{
  ℕ, ◌≤◌, ◌<◌, ◌≡◌, refl, ap, ◌∙◌, ◌⊎◌, inl, inr, Option, none, some, List, [], ◌∷◌, arith,
}
use cmpsc_473_operating_syst.Job.{Job}
use cmpsc_473_operating_syst.Scheduler.Sjf.{Best, uint64_max, consider, scan, shortest}

abbrev pub All : (Job → Type 0) → List Job → Type 0
All P [] = Unit {0}
All P (job ∷ jobs) = P job × All P jobs

abbrev pub Has : Job → List Job → Type 0
Has job [] = ⊥
Has job (other ∷ jobs) = (other ≡ job) ⊎ Has job jobs

-- The order of the policy: by job time, then by id.
abbrev pub AtMost : ℕ → ℕ → Job → Type 0
AtMost t id job = (t < job.job_time) ⊎ ((t ≡ job.job_time) × (id ≤ job.id))

-- `chosen` is what the scan may leave behind for the jobs `jobs`, started from `b`.
abbrev Found : Best → List Job → Best → Type 0
Found b jobs r =
    All (AtMost r.best_time r.best_id) jobs
    × ((r.best_time < b.best_time) ⊎ ((r.best_time ≡ b.best_time) × (r.best_id ≤ b.best_id)))
    × ((r ≡ b)
        ⊎ ((job : Job) × (r.next_job ≡ some job)
            × Has job jobs
            × (r.best_time ≡ job.job_time)
            × (r.best_id ≡ job.id)))

consider-cases :
    (b : Best) (job : Job)
    → ((consider b job ≡ b) × AtMost b.best_time b.best_id job)
      ⊎ ((consider b job
            ≡ record { best_time = job.job_time; best_id = job.id; next_job = some job })
          × ((job.job_time < b.best_time) ⊎ ((job.job_time ≡ b.best_time) × (job.id ≤ b.best_id))))
unfolding consider
consider-cases b job = ground arith

All-mono :
    (P Q : Job → Type 0) (jobs : List Job) → ((job : Job) → P job → Q job) → All P jobs → All Q jobs
All-mono P Q [] f a = tt
All-mono P Q (job ∷ jobs) f (h, a) = (f job h, All-mono P Q jobs f a)

Found-cons :
    (b c : Best) (job : Job) (jobs : List Job) (r : Best)
    → ((c ≡ b) × AtMost b.best_time b.best_id job)
      ⊎ ((c ≡ record { best_time = job.job_time; best_id = job.id; next_job = some job })
          × ((job.job_time < b.best_time) ⊎ ((job.job_time ≡ b.best_time) × (job.id ≤ b.best_id))))
    → Found c jobs r
    → Found b (job ∷ jobs) r
Found-cons b c job jobs r (inl (e, least)) (all, below, inl same) =
    ((ground arith, all), ground arith, inl (same ∙ e))
Found-cons b c job jobs r (inl (e, least)) (all, below, inr (j, n, i, t, d)) =
    ((ground arith, all), ground arith, inr (j, n, inr i, t, d))
Found-cons b c job jobs r (inr (e, better)) (all, below, inl same) = (
  (ground arith, all),
  ground arith,
  inr (job, ground arith, inl refl, ground arith, ground arith),
)
Found-cons b c job jobs r (inr (e, better)) (all, below, inr (j, n, i, t, d)) =
    ((ground arith, all), ground arith, inr (j, n, inr i, t, d))

scan-Found : (b : Best) (jobs : List Job) → Found b jobs (scan b jobs)
unfolding scan
scan-Found b [] = (tt, inr (refl, omega arith), inl refl)
scan-Found b (job ∷ jobs) =
    Found-cons b (consider b job) job jobs _ (consider-cases b job)
      (scan-Found (consider b job) jobs)

-- A job in the range of `uint64_t`.
abbrev pub InRange : Job → Type 0
InRange job = (job.job_time ≤ uint64_max) × (job.id ≤ uint64_max)

All-extreme :
    (t id : ℕ) (jobs : List Job)
    → t ≡ uint64_max
    → id ≡ uint64_max
    → All (AtMost t id) jobs
    → All InRange jobs
    → All (λ job. (job.job_time ≡ uint64_max) × (job.id ≡ uint64_max)) jobs
All-extreme t id [] e e' all range = tt
All-extreme t id (job ∷ jobs) e e' (h, all) (g, range) =
    (ground arith, All-extreme t id jobs e e' all range)

-- What the scan may answer.
abbrev pub IsShortest : List Job → Option Job → Type 0
IsShortest jobs none = All (λ job. (job.job_time ≡ uint64_max) × (job.id ≡ uint64_max)) jobs
IsShortest jobs (some job) = Has job jobs × All (AtMost job.job_time job.id) jobs

-- The scan chooses a waiting job with the least job time, and among those one with the least id. It
-- chooses none only if every waiting job has the greatest job time and the greatest id there are.
pub shortest-IsShortest : (jobs : List Job) → All InRange jobs → IsShortest jobs (shortest jobs)
unfolding shortest
shortest-IsShortest jobs range = chosen (scan start jobs) (scan-Found start jobs)
  where
    start : Best
    start = record { best_time = uint64_max; best_id = uint64_max; next_job = none }

    chosen : (r : Best) → Found start jobs r → IsShortest jobs r.next_job
    chosen r (all, below, inl same) =
        let e : r.next_job ≡ none = ap (λ (b : Best). b.next_job) same in
        rw e (All-extreme r.best_time r.best_id jobs (ground arith) (ground arith) all range)
    chosen r (all, below, inr (job, n, i, t, d)) =
        rw n (i, All-mono _ _ jobs (λ other h. ground arith) all)
