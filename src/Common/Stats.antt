-- ===== src/Common/Stats.antt =====
-- common/stats/stats.cpp: the samples of a benchmark and their statistics.
pub mod Samples
pub mod Stream
pub mod Summary
pub mod Aggregate
pub mod Widths
pub mod ColorTerm
pub mod Print
pub mod Overview
pub mod Dump
pub mod Log
pub mod Binding
mod Tests
mod PrintTests
