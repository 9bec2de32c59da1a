-- ===== src/Lib.antt =====
-- The programs of an operating systems course, one directory for each.
--
-- simulatorlab-FreezeKickerz is a discrete event simulator of job scheduling. `traceRun` reads jobs
-- from a trace file; each arrival is an event of the simulator, the scheduler's policy decides
-- which job runs and schedules its completion event, and each completion is a line of the output.
--   LinkedList    linked_list.c: list_create ... list_remove, over the memory of Heap
--   Simulator     simulator.c: simulatorSchedule is simulator_schedule, and so on
--   Job           job.h
--   Scheduler     scheduler.c; the children Fcfs, Lcfs, Sjf and Mlfq are schedulerFCFS.c,
--                 schedulerLCFS.c, schedulerSJF.c and schedulerMLFQ.c, and Policy is the dispatch
--                 through the function pointers of scheduler_t
--   Trace         trace.c: traceRun is trace_run
-- concurrency-project-FreezeKickerz is a channel library for threads.
--   Buffer        buffer.c: the ring buffer under the channels
--   Channel       channel.c: the locks and wakes of unbuffered_sync ... channel_destroy, one function
--                 for each section under `chan_mutex` (Channel/Operations), the step relation of
--                 threads (Channel/System), and channel_select (Channel/Select)
--   Stress        stress.c: the tables of distances and floyd_warshall
--   AppendList    linked_list.c: the list to which nodes are appended
-- assignment-2-malloclab-FreezeKickerz is a memory allocator with its tools.
--   Memlib        memlib.c: the simulated break and memory
--   Malloc        mm.c: malloc is malloc, its three ways take_whole, split and extend; free, coalesce,
--                 realloc and calloc are in Malloc/Release
--   Driver        mdriver.c: the ranges and the random bytes of blocks; Driver/Trace is the replay of a
--                 trace, eval_mm_valid, eval_mm_util and eval_mm_speed
--   Sampler       fcyc.c: the samples of a measurement, fcyc and fsec
--   SplayTree     stree.c: a node is a subtree, its parents are the path to the root
-- homework-1-FreezeKickerz is a set of exercises.
--   Homework      the children: Integers is polymorphic_ints.c and zla.c, IntList is linked_list.c,
--                 Kobject is kobject.c
-- mini-shell-project-FreezeKickerz is a shell.
--   Shell         utils.c and the tree of parser.h; Shell/Run is cmd.c, with parse_command, and
--                 Shell/Loop is main.c
-- Common holds what all parts share, Heap the memory of list nodes, Outcome the results of the
-- simulation program: a value, a failed assert, or a fault.
--
-- A pointer to a list node is a number, 0 for NULL, and the memory maps it to a node or to nothing;
-- reading through NULL or through a freed address is a fault. The simulator and the policies use
-- their lists through the cells that a list stands for: a node's address with what it holds, in
-- order. malloc is a parameter (Memory, Resources), which may fail at any call;
-- where a theorem needs memory, or a fresh address, a hypothesis says so. Integers of 64 bits wrap
-- around where the source computes with them.
--
-- Loops over a list have the count of the list, and one more, as fuel, which is enough for the
-- nodes that it counts. simulator_run takes fuel from its caller; simulator_destroy has enough with
-- one more than there are events.
--
-- Threads at a channel: a step of System is a section of one thread, or what the scheduler does to a
-- thread that waits or is about to signal. A signal wakes any one of the threads that wait for it;
-- spurious wake-ups may happen at any time. pthread_mutex_lock may fail, the other pthread calls
-- succeed. The posts to the semaphores of selectors are listed among the wakes of a section; the
-- threads in channel_select are not threads of System. channel_select takes the number of its rounds
-- from its caller; what other threads do between two of its visits is any function.
--
-- The allocator works on the bytes of the heap, in words of 8 bytes from the lowest one on. The
-- search through its free list has the size of the heap as fuel, which is enough for a list of no
-- more blocks than the heap has bytes. The proofs read the bytes as a row of blocks (Malloc/Blocks),
-- and the links as a list of its free ones (Malloc/Invariant).
--
-- The driver takes the numbers of random, the bytes of random_data, and the addresses at which the
-- library puts its records from the setting. The list of ranges is walked with the number of requests
-- as fuel, each of which adds one range at most.
--
-- A measurement takes the times that the timer gives, in whole numbers of some unit, with epsilon as
-- a fraction. Its loops run along these times.
--
-- A shell command takes the system calls as an argument: a process, which fork copies, and a world,
-- which processes share. What two processes do at once is any function of the two. start_shell takes
-- the number of its lines from its caller; parse_line is an argument.
--
-- Not modelled: the parser of the shell, the routers of stress.c, the clock and the clearing of the
-- cache in measurements, files and printing, the command lines, and the tests. The functions that only
-- free memory are left out, except list_destroy and simulatorDestroy.
pub mod AppendList
pub mod Buffer
pub mod Channel
pub mod Common
pub mod Driver
pub mod Heap
pub mod Homework
pub mod Job
pub mod LinkedList
pub mod Malloc
pub mod Memlib
pub mod Outcome
pub mod Sampler
pub mod Scheduler
pub mod Shell
pub mod Simulator
pub mod SplayTree
pub mod Stress
pub mod Trace
