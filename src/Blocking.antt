-- ===== src/Blocking.antt =====
-- benchmark/blocking: the locks, each under the loop of its `*_sync` function.
pub mod Sync
pub mod BitLock
pub mod TasLock
pub mod TatasLock
pub mod ArrayLock
pub mod PetersonLock
pub mod FilterLock
pub mod ClhLock
pub mod FairLock
pub mod PosixLock
pub mod MutexLock
pub mod MutexStack
