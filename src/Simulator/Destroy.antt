-- ===== src/Simulator/Destroy.antt =====
-- The loop of `simulatorDestroy`.
use cmpsc_473_operating_syst.Heap.Linked.{Cells}
use cmpsc_473_operating_syst.Outcome.{Outcome}
use cmpsc_473_operating_syst.Simulator.{Simulator}
