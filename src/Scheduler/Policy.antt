-- ===== src/Scheduler/Policy.antt =====
-- simulatorlab-FreezeKickerz/scheduler.c: the choice of a policy by its name, and the calls through
-- the function pointers that it sets. `schedulerInfo` is a sum over the policies.
use text.Mathlib.Text.{◌==◌ as str_eq}
use Prim.Native.String.{String}
use mathlib.Core.Option
use cmpsc_473_operating_syst.Common.{ℕ, Bool, Option, none, ◌==◌, if◌then◌else◌}
use cmpsc_473_operating_syst.Heap.{null}
use cmpsc_473_operating_syst.Job.{Job}
use cmpsc_473_operating_syst.Outcome.{Outcome, ok, ◌>>=◌}
use cmpsc_473_operating_syst.Scheduler.{Scheduler, Resources, scheduler_cancel_next_completion}
use cmpsc_473_operating_syst.Scheduler.Fcfs
use cmpsc_473_operating_syst.Scheduler.Lcfs
use cmpsc_473_operating_syst.Scheduler.Mlfq
use cmpsc_473_operating_syst.Scheduler.Sjf
use cmpsc_473_operating_syst.Simulator.{simulator_sim_time}

pub data Info : Type 0 where
  fcfs : Fcfs.Info → Info
  lcfs : Lcfs.Info → Info
  sjf : Sjf.Info → Info
  mlfq : Mlfq.Info → Info

-- The flags say whether `malloc` gives the scheduler, its information and the list in that.
unfoldable pub scheduler_create : (memory info_memory list_memory : Bool) → String → Option Info
unfolding Fcfs.create Lcfs.create Sjf.create Mlfq.create
scheduler_create memory info_memory list_memory name =
    if memory
    then (if str_eq name "FCFS"
        then Option.map fcfs (Fcfs.create info_memory list_memory)
        else if str_eq name "LCFS"
        then Option.map lcfs (Lcfs.create info_memory list_memory)
        else if str_eq name "SJF"
        then Option.map sjf (Sjf.create info_memory list_memory)
        else if str_eq name "MLFQ"
        then Option.map mlfq (Mlfq.create info_memory)
        else none)
    else none

-- `scheduler->scheduleJob`
unfoldable pub schedule_job : Resources → Info → Scheduler → Job → ℕ → Outcome (Info × Scheduler)
unfolding Fcfs.schedule_job Lcfs.schedule_job Sjf.schedule_job Mlfq.schedule_job
schedule_job m (fcfs i) s job now = do (i', s') ← Fcfs.schedule_job m i s job now; ok (fcfs i', s')
schedule_job m (lcfs i) s job now = do (i', s') ← Lcfs.schedule_job m i s job now; ok (lcfs i', s')
schedule_job m (sjf i) s job now = do (i', s') ← Sjf.schedule_job m i s job now; ok (sjf i', s')
schedule_job m (mlfq i) s job now = do (i', s') ← Mlfq.schedule_job m i s job now; ok (mlfq i', s')

-- `scheduler->completeJob`
unfoldable pub complete_job :
    Resources → Info → Scheduler → ℕ → Outcome (Option Job × Info × Scheduler)
unfolding Fcfs.complete_job Lcfs.complete_job Sjf.complete_job Mlfq.complete_job
complete_job m (fcfs i) s now = do
  (job, i', s') ← Fcfs.complete_job m i s now
  ok (job, fcfs i', s')
complete_job m (lcfs i) s now = do
  (job, i', s') ← Lcfs.complete_job m i s now
  ok (job, lcfs i', s')
complete_job m (sjf i) s now = do (job, i', s') ← Sjf.complete_job m i s now; ok (job, sjf i', s')
complete_job m (mlfq i) s now = do
  (job, i', s') ← Mlfq.complete_job m i s now
  ok (job, mlfq i', s')

unfoldable pub scheduler_schedule_job :
    Resources → Info → Scheduler → Job → Outcome (Info × Scheduler)
unfolding schedule_job simulator_sim_time
scheduler_schedule_job m info s job = schedule_job m info s job (simulator_sim_time s.sim)

-- `schedulerCompleteJob` up to the call of the completion callback, which gets the job returned.
unfoldable pub scheduler_complete_job :
    Resources → Info → Scheduler → Outcome (Option Job × Info × Scheduler)
unfolding complete_job simulator_sim_time
scheduler_complete_job m info s =
    complete_job m info (record s { completion_event = null }) (simulator_sim_time s.sim)

-- What `schedulerDestroy` does to the simulator; the rest gives memory back.
unfoldable pub scheduler_destroy : Scheduler → Outcome Scheduler
unfolding scheduler_cancel_next_completion
scheduler_destroy s =
    if s.completion_event == null
    then ok s
    else (do (cancelled, s') ← scheduler_cancel_next_completion s; ok s')
