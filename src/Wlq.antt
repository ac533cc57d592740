-- ===== src/Wlq.antt =====
-- The window-level stage (WLQ): include/wlq.hpp.
pub mod Collector
pub mod Emitter
pub mod Pool
pub mod Worker
