-- ===== src/Driver.antt =====
-- The drivers of the benchmarks: benchmark/*/*/driver.cpp.
pub mod Calls
pub mod Lock
pub mod TasDriver
pub mod TatasDriver
pub mod TaubenfeldDriver
pub mod MutexDriver
pub mod PosixDriver
pub mod FilterDriver
pub mod PetersonDriver
pub mod ArrayDriver
pub mod ClhDriver
pub mod Resets
pub mod Pair
pub mod StackDriver
pub mod MutexStackDriver
pub mod MpmcDriver
pub mod SpscDriver
pub mod BqueueDriver
mod Tests
mod PairTests
