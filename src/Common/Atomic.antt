-- ===== src/Common/Atomic.antt =====
-- common/atomic_intrinsic and common/tagged_pointers: fences, atomic operations by size, and
-- pointers with a counter.
pub mod Bits
pub mod Fences
pub mod Tagged
pub mod Gcc
mod Tests
