-- ===== src/Nonblocking.antt =====
-- benchmark/nonblocking: the queues of other projects, and the loops that use them.
pub mod SpscClient
pub mod MpmcClient
