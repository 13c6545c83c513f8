-- ===== src/Common.antt =====
-- common: the libraries that the benchmarks share.
pub mod Atomic
pub mod Barrier
pub mod Collector
pub mod HazardPointers
pub mod Papi
pub mod Stats
pub mod Timer
