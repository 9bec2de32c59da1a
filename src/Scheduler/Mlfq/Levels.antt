-- ===== src/Scheduler/Mlfq/Levels.antt =====
-- The invariant of the feedback queues, and what each handler does with the jobs in them.
use cmpsc_473_operating_syst.Common.{
  ℕ, zero, suc, ◌+◌, ◌≤◌, ◌<◌, ◌≡◌, refl, ap, Bool, true, if◌then◌else◌, Option, none, some, List,
  [], ◌∷◌, ◌++◌, arith, length, length-append,
}
use cmpsc_473_operating_syst.Scheduler.{Resources}
use cmpsc_473_operating_syst.Scheduler.Mlfq.{MlfqJob, take_first, append_at}

abbrev pub All : (MlfqJob → Type 0) → List MlfqJob → Type 0
All P [] = Unit {0}
All P (w ∷ ws) = P w × All P ws

-- Each job stands in the queue of its level; the first queue is that of the level `n`.
abbrev pub Levels : ℕ → List (List MlfqJob) → Type 0
Levels n [] = Unit {0}
Levels n (queue ∷ queues) = All (λ w. w.level ≡ n) queue × Levels (suc n) queues

-- How many jobs wait.
abbrev pub waiting : List (List MlfqJob) → ℕ
waiting [] = 0
waiting (queue ∷ queues) = length queue + waiting queues

-- The waiting jobs, those of the first queue first.
abbrev pub all_jobs : List (List MlfqJob) → List MlfqJob
all_jobs [] = []
all_jobs (queue ∷ queues) = queue ++ all_jobs queues

-- How many of some jobs pass a test.
abbrev pub count : (MlfqJob → Bool) → List MlfqJob → ℕ
count test [] = 0
count test (w ∷ ws) = (if test w then 1 else 0) + count test ws

count-append :
    (test : MlfqJob → Bool) (vs ws : List MlfqJob)
    → count test (vs ++ ws) ≡ count test vs + count test ws
count-append test [] ws = omega arith
count-append test (v ∷ vs) ws = omega (arith, count-append test vs ws)

-- No waiting job has a level below `l`.
abbrev pub NoneBelow : ℕ → List (List MlfqJob) → Type 0
NoneBelow l [] = Unit {0}
NoneBelow l (queue ∷ queues) = All (λ w. l ≤ w.level) queue × NoneBelow l queues

All-mono :
    (P Q : MlfqJob → Type 0) (ws : List MlfqJob) → ((w : MlfqJob) → P w → Q w) → All P ws → All Q ws
All-mono P Q [] f a = tt
All-mono P Q (w ∷ ws) f (h, a) = (f w h, All-mono P Q ws f a)

All-snoc :
    (P : MlfqJob → Type 0) (ws : List MlfqJob) (w : MlfqJob) → All P ws → P w → All P (ws ++ w ∷ [])
All-snoc P [] w a h = (h, tt)
All-snoc P (v ∷ ws) w (g, a) h = (g, All-snoc P ws w a h)

Levels-NoneBelow :
    (l n : ℕ) (queues : List (List MlfqJob)) → l ≤ n → Levels n queues → NoneBelow l queues
Levels-NoneBelow l n [] h a = tt
Levels-NoneBelow l n (queue ∷ queues) h (a, b) =
    (All-mono _ _ queue (λ w e. omega arith) a, Levels-NoneBelow l (suc n) queues (omega arith) b)

-- What may come of taking the first job out of `queues`.
abbrev pub Taken : ℕ → List (List MlfqJob) → Option MlfqJob × List (List MlfqJob) → Type 0
Taken n queues (none, queues') = (queues' ≡ queues) × (waiting queues ≡ 0)
Taken n queues (some w, queues') =
    Levels n queues'
    × (length queues' ≡ length queues)
    × (all_jobs queues ≡ w ∷ all_jobs queues')
    × (n ≤ w.level)
    × (w.level < n + length queues)
    × NoneBelow w.level queues

-- Taking the first job out of queues that are in order takes a job of the least level there is, the
-- first of its queue, and leaves the others, in order; it takes none only if none waits, and then
-- changes nothing.
pub take_first-Taken :
    (n : ℕ) (queues : List (List MlfqJob)) → Levels n queues → Taken n queues (take_first queues)
unfolding take_first
take_first-Taken n [] h = (refl, refl)
take_first-Taken n ([] ∷ queues) (tt', h) =
    below (take_first queues) (take_first-Taken (suc n) queues h)
  where
    below :
        (r : Option MlfqJob × List (List MlfqJob))
        → Taken (suc n) queues r
        → Taken n ([] ∷ queues) (r.0, [] ∷ r.1)
    below (none, queues') (same, empty) = (ap (◌∷◌ []) same, omega arith)
    below (some w, queues') (levels, size, first, low, high, least) =
        ((tt, levels), omega arith, first, omega arith, omega arith, (tt, least))
take_first-Taken n ((w ∷ queue) ∷ queues) ((e, a), h) = (
  (a, h),
  refl,
  refl,
  omega arith,
  omega arith,
  (
    (omega arith, All-mono _ _ queue (λ v e'. omega arith) a),
    Levels-NoneBelow w.level (suc n) queues (omega arith) h,
  ),
)

-- Given memory for the node, a job put into the queue of its level is waiting there, and the queues
-- stay in order.
pub append_at-Levels :
    (m : Resources) (n k : ℕ) (w : MlfqJob) (queues : List (List MlfqJob))
    → m.job_node w.job.ref w.job.remaining_time ≡ true
    → w.level ≡ n + k
    → k < length queues
    → Levels n queues
    → Levels n (append_at m k w queues)
      × (length (append_at m k w queues) ≡ length queues)
      × (waiting (append_at m k w queues) ≡ waiting queues + 1)
unfolding append_at
append_at-Levels m n k w [] memory e h a = absurd (omega arith)
append_at-Levels m n zero w (queue ∷ queues) memory e h (a, b) =
    rw memory
      ((All-snoc _ queue w a (omega arith), b), refl, omega (arith, length-append queue (w ∷ [])))
append_at-Levels m n (suc k) w (queue ∷ queues) memory e h (a, b) =
    let (levels, size, count) =
      append_at-Levels m (suc n) k w queues memory (omega arith) (omega arith) b in
    ((a, levels), omega arith, omega arith)

pub append_at-count :
    (m : Resources) (test : MlfqJob → Bool) (k : ℕ) (w : MlfqJob) (queues : List (List MlfqJob))
    → m.job_node w.job.ref w.job.remaining_time ≡ true
    → k < length queues
    → count test (all_jobs (append_at m k w queues))
      ≡ count test (all_jobs queues) + count test (w ∷ [])
unfolding append_at
append_at-count m test k w [] memory h = absurd (omega arith)
append_at-count m test zero w (queue ∷ queues) memory h = rw memory (
    omega (
      arith,
      count-append test (queue ++ w ∷ []) (all_jobs queues),
      count-append test queue (w ∷ []),
      count-append test queue (all_jobs queues),
    ))
append_at-count m test (suc k) w (queue ∷ queues) memory h = omega (
  arith,
  count-append test queue (all_jobs (append_at m k w queues)),
  count-append test queue (all_jobs queues),
  append_at-count m test k w queues memory (omega arith),
)
