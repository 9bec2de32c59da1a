-- ===== src/Trace/Tests.antt =====
-- Runs of the traces that come with the program, against the outputs expected of them.
use cmpsc_473_operating_syst.Common.{◌≡◌, refl, true, none, some, [], ◌∷◌}
use cmpsc_473_operating_syst.Heap.Fresh.{above}
use cmpsc_473_operating_syst.Outcome.{ok}
use cmpsc_473_operating_syst.LinkedList.Insert.{insert_cell}
use cmpsc_473_operating_syst.Scheduler.{
  Resources, scheduler_schedule_next_completion, scheduler_cancel_next_completion,
}
use cmpsc_473_operating_syst.Simulator.{
  simulator_schedule, simulator_event_compare, simulator_remove_event, remove_cell,
}
use cmpsc_473_operating_syst.Trace.{row, trace_run}

plenty : Resources
unfolding above simulator_schedule insert_cell scheduler_schedule_next_completion
    simulator_event_compare simulator_remove_event remove_cell scheduler_cancel_next_completion
plenty = record {
  events = record { event = λ n. true; node = λ n xs. above xs };
  job = λ n. true;
  job_node = λ n r. true;
  wrapper = λ n. true;
}

-- traces/FCFS_1.csv and FCFS_1.csv.expected
fcfs_1 :
    trace_run plenty 100
      (row 1 0 1 ∷ row 2 0 3 ∷ row 3 0 2 ∷ row 4 7 1 ∷ row 5 7 3 ∷ row 6 7 2 ∷ [])
      "FCFS"
    ≡ ok (some ((1, 1) ∷ (2, 4) ∷ (3, 6) ∷ (4, 8) ∷ (5, 11) ∷ (6, 13) ∷ []))
unfolding trace_run plenty
fcfs_1 = refl

-- traces/LCFS_2.csv and LCFS_2.csv.expected, in the order of completion
lcfs_2 :
    trace_run plenty 100
      (row 1 0 4
        ∷ row 3 0 5
        ∷ row 5 0 1
        ∷ row 7 3 2
        ∷ row 9 3 5
        ∷ row 11 3 9
        ∷ row 13 5 2
        ∷ row 15 5 1
        ∷ [])
      "LCFS"
    ≡ ok (
        some ((1, 4) ∷ (11, 13) ∷ (15, 14) ∷ (13, 16) ∷ (9, 21) ∷ (7, 23) ∷ (5, 24) ∷ (3, 29) ∷ []))
unfolding trace_run plenty
lcfs_2 = refl

-- traces/SJF_1.csv and SJF_1.csv.expected, in the order of completion
sjf_1 :
    trace_run plenty 100
      (row 1 0 1 ∷ row 2 0 3 ∷ row 3 0 2 ∷ row 4 7 3 ∷ row 5 8 2 ∷ row 6 9 1 ∷ [])
      "SJF"
    ≡ ok (some ((1, 1) ∷ (3, 3) ∷ (2, 6) ∷ (4, 10) ∷ (6, 11) ∷ (5, 13) ∷ []))
unfolding trace_run plenty
sjf_1 = refl

-- traces/MLFQ_1.csv and MLFQ_1.csv.expected, in the order of completion
mlfq_1 :
    trace_run plenty 100
      (row 1 0 15 ∷ row 2 4 4 ∷ row 3 6 1 ∷ row 4 8 4 ∷ row 5 10 2 ∷ row 6 11 10 ∷ [])
      "MLFQ"
    ≡ ok (some ((3, 7) ∷ (5, 13) ∷ (2, 17) ∷ (4, 18) ∷ (6, 31) ∷ (1, 36) ∷ []))
unfolding trace_run plenty
mlfq_1 = refl

-- A name that is no policy's makes `traceRun` return false.
unknown_policy : trace_run plenty 100 (row 1 0 1 ∷ []) "RR" ≡ ok none
unfolding trace_run plenty
unknown_policy = refl
