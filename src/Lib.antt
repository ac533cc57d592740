-- ===== src/Lib.antt =====
-- Elastic-PPQ: parallel continuous preference queries on data streams.
--
-- A stream of points with timestamps is cut into panes, and sliding windows are made of whole panes
-- (Pane Farming). The emitter of the PLQ stage hands each tuple to a worker, which keeps a results set
-- per open pane; the WLQ stage merges the results sets of the panes into those of the windows, and its
-- collector sends the windows out in order.
--
-- Files of this library, and the code that each one models:
--   Common, Common/*     shared names, Boolean tests, lists and integers over native numbers
--   Double               the comparisons of `double` that the queries use, and their laws; its arithmetic
--   Message              include/tuple_t.hpp, the messages of the PLQ stage; in Message/Wire a regular tuple
--                        as bytes, over an interface for how a double lies in memory
--   Rset                 include/Rset.hpp, the times and counters of a results set
--   Query/TData          include/queries.hpp, the columns that hold tuples (`TData`)
--   Query/Dominance      the order of the skyline query: no worse anywhere and better somewhere
--   Query/Skyline        the skyline of a list, the specification of the query
--   Query/SkySet         include/queries.hpp, `SkySet` with `addComputeTuple`, `addComputeSet`,
--                        `updateSkyline` and `toVector`; Scores, Shift, Update and Merge under it are
--                        the proofs, Results and Stream what they come to
--   Panes                include/pane_farming.hpp (the constructor `PF`), the windows of a pane in
--                        include/wlq.hpp, and `countWindows` of include/plq.hpp
--   ResultsSet           the template parameter `Rset_t` of the stages: the operations of a query and what
--                        it promises; Query/SkySet/Instance fills it
--   Plq/Worker           include/plq.hpp, `PLQ_Worker`: the deque of open panes and `svc`; Deque under it
--                        is about its order, Shares and Served about where the tuples go, Closing about
--                        what is closed, aborted and deleted
--   Plq/WorkerIop        include/plq.hpp, `PLQ_Worker_IOP`, the worker for tuples that come in order
--   KSlack               include/kslack.hpp, `KSlack_Punc` and `KSlack_Buffer`; Delay is about the slack
--                        and the punctuations, Sorting and Order about the reordering buffer
--   Plq/Emitter          include/plq.hpp, `PLQ_Emitter`: punctuations and drops; Timely is about what is
--                        scheduled after a punctuation, Counts about the counters
--   Plq/Sched            include/sched_plq.hpp, the base class `Sched`: round robin, the least loaded worker
--                        (Choice), the progress of the stream (Passing, Progress), multicasts and
--                        stopped workers (Stopping); Informed is what the strategies' proofs share
--   Plq/Sched/PbRr       `PB_RR_Sched`; Placed under it is about tuples, Moving about stopped workers
--   Plq/Sched/TbRr       `TB_RR_Sched`; Sound under it is about tuples, Repairing and Removing about
--                        stopped workers
--   Plq/Sched/Adaptive   `Adaptive_Sched`, over an interface for doubles; Branches, Counting and
--                        Scheduling are about tuples, Mending, Forcing and Removing about stopped
--                        workers, Pid is `Adaptive_Sched_PID`
--   Pid                  include/pid.hpp, `PID`; Limits is about its output
--   Controller           include/controller.hpp, `ResourcePool` and the reconfigurations; Acquire and
--                        Release are about the pool, Steps and Start about the agreement of the
--                        controller with the emitters
--   Wlq/Collector        include/wlq.hpp, `WLQ_Collector`: Slots under it is about the deque, Ordered
--                        and InOrder about what is sent
--   Wlq/Emitter          include/wlq.hpp, `WLQ_Task_t` and the window descriptors of `WLQ_Emitter`; Tasks
--                        under it is about the tasks that are found, Finalize about a window's life
--   Wlq/Emitter/Svc      the same class, `svc` and `eosnotify`; Traffic, Measures, Places and Invariant under
--                        it are the accounting of tasks and windows; Taking, Choosing, Moved, Sending,
--                        Assigning, Searching, Back, Returning, Growing, Joining, Arriving, Commands
--                        and Feeding keep it over a part of the code, Running and Reached over the
--                        whole; Settling and Steady are about waiting without need, Draining and Ended
--                        about the end
--   Wlq/Worker           include/wlq.hpp, `WLQ_Worker`, over a store of the shared results sets; Uses
--                        and Counted are about their counters and contents
--   Wlq/Pool             include/wlq.hpp, the workers of `WLQ_Emitter`: search, reconfiguration and
--                        termination; Idle under it is about the search
--
-- Numbers: coordinates are of a type W with the comparisons of `double` (no NaN), whose laws are a
-- hypothesis; timestamps are whole microseconds; sizes and indices are natural numbers, with the wrap
-- of `size_t` written out where the code relies on it or runs into it. DIM is a parameter of at least
-- 2. An `int` index that may be -1 is kept as the number of places up to it. The fuel of a loop is
-- given by the code's own bound on its rounds and shown to be enough.
--
-- Not modelled: threads, sockets, clocks, printing and logging (times are arguments), the FastFlow
-- runtime, the fuzzy-logic library, the auto-tuning of the PID (it is never enabled), the slack mechanisms
-- that a PID corrects (the emitter takes any mechanism), `PLQ_Emitter_IOP` and
-- the receiving side of `PLQ_Emitter::svc`, and the spatial index.
pub mod Common
pub mod Double
pub mod Message
pub mod Rset
pub mod Query
pub mod Panes
pub mod ResultsSet
pub mod Pid
pub mod Plq
pub mod KSlack
pub mod Controller
pub mod Wlq
