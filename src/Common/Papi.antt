-- ===== src/Common/Papi.antt =====
-- common/ada_binding/papi/binding.cpp: the PAPI counters and clock for the Ada benchmarks.
pub mod Tsx
pub mod Clock
mod Tests
