-- ===== src/Job.antt =====
-- simulatorlab-FreezeKickerz/job.h: jobs. A `job_t*` is the record itself, with the number of the
-- allocation that it comes from (`ref`) for its address: two pointers are equal exactly when those
-- numbers are.
use cmpsc_473_operating_syst.Common.{ℕ, ◌+◌, ◌-◌, ◌%◌, ◌^◌, Bool, Option, none, some, if◌then◌else◌}

-- `job_t`
pub record Job : Type 0 where
  pub ref : ℕ
  pub arrival_time : ℕ
  pub job_time : ℕ
  pub remaining_time : ℕ
  pub id : ℕ

-- `memory` says whether `malloc` gives the job.
unfoldable pub job_create : (ref : ℕ) (memory : Bool) → ℕ → ℕ → ℕ → Option Job
job_create ref memory arrival_time job_time id =
    if memory
    then some (record {
      ref = ref;
      arrival_time = arrival_time;
      job_time = job_time;
      remaining_time = job_time;
      id = id;
    })
    else none

unfoldable pub job_get_arrival_time : Job → ℕ
job_get_arrival_time job = job.arrival_time

unfoldable pub job_get_job_time : Job → ℕ
job_get_job_time job = job.job_time

unfoldable pub job_get_remaining_time : Job → ℕ
job_get_remaining_time job = job.remaining_time

unfoldable pub job_set_remaining_time : Job → ℕ → Job
job_set_remaining_time job remaining_time = record job { remaining_time = remaining_time }

-- `uint64_t` subtraction wraps.
unfoldable pub job_get_completed_time : Job → ℕ
job_get_completed_time job = (job.job_time + 2 ^ 64 - job.remaining_time) % 2 ^ 64

unfoldable pub job_get_id : Job → ℕ
job_get_id job = job.id
