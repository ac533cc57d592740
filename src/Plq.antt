-- ===== src/Plq.antt =====
-- The pane-level stage (PLQ): include/plq.hpp and include/sched_plq.hpp.
pub mod Worker
pub mod Emitter
pub mod WorkerIop
pub mod Sched
