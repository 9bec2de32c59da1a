-- ===== src/Trace.antt =====
-- simulatorlab-FreezeKickerz/trace.h and trace.c: a run of a trace. The trace file is the sequence of
-- its rows, the output file the sequence of the lines written, in the order of writing.
mod Tests
use Prim.Native.String.{String}
use cmpsc_473_operating_syst.Common.{
  ℕ, ◌+◌, true, Option, none, some, List, [], ◌∷◌, ◌++◌, ◌==◌, if◌then◌else◌,
}
use cmpsc_473_operating_syst.Heap.{null}
use cmpsc_473_operating_syst.Job.{Job, job_create, job_get_arrival_time, job_get_id}
use cmpsc_473_operating_syst.Outcome.{Outcome, ok, abort, fault, ◌>>=◌}
use cmpsc_473_operating_syst.Scheduler.{Scheduler, Callback, complete_job, arrive, Resources}
use cmpsc_473_operating_syst.Scheduler.Policy.{
  Info, scheduler_create, scheduler_schedule_job, scheduler_complete_job, scheduler_destroy,
}
use cmpsc_473_operating_syst.Simulator.{
  Simulator, event_arrival, simulator_create, simulator_schedule, simulator_run, simulator_destroy,
  simulator_sim_time,
}

-- What `fscanf` makes of the next line: the id, the arrival time and the job time, or no match
-- though the file goes on.
pub data Row : Type 0 where
  row : (id arrival_time job_time : ℕ) → Row
  malformed : Row

-- `trace_t` without its simulator; `completion_event` and `info` are those of its scheduler, and
-- `jobs` numbers the jobs that it has created.
pub record Trace : Type 0 where
  pub completion_event : ℕ
  pub info : Info
  pub trace_file : List Row
  pub out_file : List (ℕ × ℕ)
  pub current_job : Option Job
  pub jobs : ℕ

abbrev pub State : Type 0
State = Simulator Callback × Trace

-- The rest of `traceScheduleNextArrival` once a row is read.
unfoldable pub schedule_arrival : Resources → Option Job → List Row → State → Outcome State
unfolding job_get_arrival_time
schedule_arrival m none rows (sim, t) = abort
schedule_arrival m (some job) rows (sim, t) = do
  (p, sim') ← simulator_schedule m.events sim (job_get_arrival_time job) event_arrival arrive
  (if p == null
      then abort
      else ok (sim', record t { trace_file = rows; current_job = some job; jobs = t.jobs + 1 }))

unfoldable pub next_arrival : Resources → List Row → State → Outcome State
unfolding schedule_arrival job_create
next_arrival m [] s = ok s
next_arrival m (malformed ∷ rows) s = abort
next_arrival m (row id arrival_time job_time ∷ rows) (sim, t) =
    schedule_arrival m (job_create t.jobs (m.job t.jobs) arrival_time job_time id) rows (sim, t)

unfoldable pub trace_schedule_next_arrival : Resources → State → Outcome State
unfolding next_arrival
trace_schedule_next_arrival m (sim, t) = next_arrival m t.trace_file (sim, t)

-- `schedulerScheduleJob` for the current job of the trace.
unfoldable pub admit_job : Resources → Option Job → State → Outcome State
admit_job m none (sim, t) = fault
admit_job m (some job) (sim, t) = do
  (info, s) ←
      scheduler_schedule_job m t.info (record { sim = sim; completion_event = t.completion_event })
        job
  ok (s.sim, record t { completion_event = s.completion_event; info = info })

unfoldable pub trace_arrival_callback : Resources → State → Outcome State
unfolding admit_job trace_schedule_next_arrival scheduler_schedule_job
trace_arrival_callback m (sim, t) = do
  s ← admit_job m t.current_job (sim, t)
  trace_schedule_next_arrival m s

-- The line `id,time` for a job that is completed.
unfoldable pub trace_completion_callback : Option Job → State → State
unfolding job_get_id simulator_sim_time
trace_completion_callback none s = s
trace_completion_callback (some job) (sim, t) =
    (sim, record t { out_file = t.out_file ++ (job_get_id job, simulator_sim_time sim) ∷ [] })

-- `schedulerCompleteJob`
unfoldable pub completion : Resources → State → Outcome State
unfolding trace_completion_callback scheduler_complete_job
completion m (sim, t) = do
  (job, info, s) ←
      scheduler_complete_job m t.info (record { sim = sim; completion_event = t.completion_event })
  ok (
      trace_completion_callback job
        (s.sim, record t { completion_event = s.completion_event; info = info }))

unfoldable pub exec : Resources → Callback → State → Outcome State
unfolding completion trace_arrival_callback
exec m complete_job s = completion m s
exec m arrive s = trace_arrival_callback m s

-- What stands in the output file at the end of `traceRun`; `none` where it returns false for a name
-- that is no policy's. Files are taken to open, and the structures at the start to be allocated.
unfoldable pub trace_run : Resources → ℕ → List Row → String → Outcome (Option (List (ℕ × ℕ)))
unfolding scheduler_create simulator_run exec trace_schedule_next_arrival scheduler_destroy
    simulator_destroy
trace_run m fuel rows name = elim (scheduler_create true true true name) [
  | none ↦ ok none
  | some info ↦ do
    let sim : Simulator Callback = record { queue = []; sim_time = 0; id = 0 }
    let t : Trace = record {
      completion_event = null;
      info = info;
      trace_file = rows;
      out_file = [];
      current_job = none;
      jobs = 0;
    }
    s ← trace_schedule_next_arrival m (sim, t)
    (sim', t') ← simulator_run (exec m) fuel s
    s' ← scheduler_destroy (record { sim = sim'; completion_event = t'.completion_event })
    sim'' ← simulator_destroy fuel s'.sim
    ok (some t'.out_file)
]
