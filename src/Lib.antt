-- ===== src/Lib.antt =====
-- shm_sync: benchmarks of synchronization constructs for shared memory. A driver starts threads
-- that run the loop of one construct (a lock, a stack or a queue), holds them together with a
-- barrier before each execution, times them, and has the samples summed up as statistics.
--
-- The parts, and the modules that model them:
--   * Interleaving: threads over one shared memory, as a step function for each thread and the
--     states that any order of steps reaches. Atomic accesses are sequentially consistent, which
--     is what the `_sc` files ask for, but for the relaxed load in `lock` of
--     Taubenfeld/fair_lock_sc.cpp; the `_ar` files, which weaken the memory orders, are not
--     modelled. Interleaving/Progress is about a measure that some thread can
--     always lower by a step, Interleaving/Bursts about one that takes it several steps.
--   * Blocking/Sync: the loop `*_sync` of the lock benchmarks (benchmark/blocking/*/), over a
--     record of the lock's `lock` and `unlock`, one shared access a step. The delays
--     `useful_in` and `useful_out` are steps that touch no memory.
--   * Blocking/BitLock: the promise of a lock that is one bit, for TasLock
--     (TASLock/taslock_sc.cpp), TatasLock (TATASLock/tatas_lock_sc.cpp), MutexLock
--     (C++11MutexLock/cpp11_mutex_lock.cpp) and FairLock (Taubenfeld/fair_lock_sc.cpp), where
--     `lock` stands for `entry_section` and `lock`, and `unlock` for `unlock` and `exit_section`;
--     and for PosixLock (POSIXMutexLock/posix_mutex_lock.cpp), over the mutex of pthreads, which is a
--     parameter.
--   * Blocking/ArrayLock (ArrayLock/arraylock_sc.cpp): `flags` is a list of MAX_NR_THREADS
--     Booleans, `tail` has 64 bits, `thread_lock_slot` is the thread's local variable. The
--     invariant gives every waiting thread a ticket.
--   * Blocking/ClhLock (CLHQueueLock/clhqueue_lock_sc.cpp): nodes are addresses, the shared memory
--     is the `locked` bit of each and the tail, `myNode` and `myPred` are local. `aligned_alloc`
--     gives every thread a node of its own.
--   * Blocking/PetersonLock (PetersonLock/peterson_lock_sc.cpp).
--   * Blocking/FilterLock (FilterLock/filter_lock_sc.cpp): `levels` and `victims` are families indexed
--     by number, and each round of the loop of `higher_or_equal` is one step. The invariant says what
--     the victim of a level excludes from it.
--   * Blocking/MutexStack (C++11MutexStack/mutexstack.cpp): a heap of nodes, with `new` and
--     `delete`; each operation is one step, since it holds the mutex. The destructor is left out.
--   * Nonblocking/SpscClient (BoostSPSC/boost_spsc.cpp and BQueue/bqueue.cpp): the loops of a
--     producer and a consumer over a queue that is a parameter.
--   * Nonblocking/MpmcClient (BoostMPMC/boost_mpmc.cpp): the loops of many producers and consumers over
--     one queue, which is a parameter too.
--   * Common/Barrier (common/barrier/barrier.cpp): `barrier_init` and `barrier_wait`, with counters
--     of 64 bits and one read of a counter a step.
--   * Common/Collector (common/stats/smpl_collector.cpp): `range_smpl_collector`. Assertions and
--     allocations that fail give `none`.
--   * Common/Stats (common/stats/stats.cpp): Samples has `initStats` and `enterSample`, with the
--     products of `uint32_t` counts written out by their 32 bits; Summary has `doStats`, the sort
--     and the median; Aggregate has `aggregateStatistics`. Widths has `numWidth` and
--     `computeSampleWidths`, Print has `dump_details_of_run`, Overview `dump_all_runs`, Dump
--     `dumpData` and `deleteDump`, Dump/Raw `dumpRawData`. What they print are lists of items
--     (Stream): texts, numbers and manipulators, which `emit` turns into characters by the format of
--     the stream. The operations on `double`, and its text, are parameters (`Floats`, `Printer`).
--     ColorTerm is color_term.cpp, Log is log.cpp, and Binding common/ada_binding/stats/binding.cpp.
--   * Common/HazardPointers (common/hazard_pointers/hazard_pointers.hpp): the list of retired nodes
--     in a heap of nodes, `Retire` and `delete_nodes_with_no_hazards`, one call at a time.
--   * Common/Timer (common/timer/timer_x86.cpp): the delays as the number of `dec` instructions, and
--     `calibrate_delay` (Calibrate) for jiffies of a given number of loops, with the counters of its
--     first loop as `int`, whose overflow gives `none`.
--   * Common/Atomic: Fences (common/atomic_intrinsic/c++/fences*.h), with what an instruction orders
--     as a parameter; Gcc (common/atomic_intrinsic/ada/gcc_atomics.c), over a memory of bytes, with the orders as
--     atomic_intrinsic.ads numbers them; Tagged
--     (common/tagged_pointers/tagged.c), with its masks as facts about binary digits in Bits.
--   * Common/Papi (common/ada_binding/papi/binding.cpp): Tsx has the counters call by call, with the
--     library as a parameter, Clock the times of the threads, whose differences may be negative.
--   * Driver/Calls, Driver/Lock, Driver/Pair (benchmark/*/*/driver.cpp): the thread functions and
--     `main` as the lists of calls that they make, with PAPI's answers as a parameter. Driver/Lock
--     is what the drivers of the locks share and Driver/Pair what those of the stacks and queues
--     share; the modules beside them give what each driver calls of its own construct. The command
--     line is taken as parsed by cxxopts, and its counts are not negative.
--
-- The parts interact as follows. `main` calls `barrier_init` and `initStats` before it creates
-- threads; a thread calls `barrier_wait` before each execution, the construct's loop inside, and
-- `enterSample` behind it. Driver/Lock/Entries and Driver/Pair/Totals add up what all threads of
-- a `main` do; Driver/Resets tells between which calls of the barrier a construct is prepared.
--
-- Loops are recursion on the number of turns, or, where they wait for another thread, a step that
-- leaves the thread where it is. Three loops take a bound: `delete_loop` the number of nodes in the
-- list, which is enough; the first loop of `calibrate_delay` as many rounds as the jiffy has loops,
-- since each adds at least one; and its jumps back, of which 24 are enough below 2 ^ 60 loops, since
-- each makes the step four times as large. The halving of a word takes at most 64 rounds.
--
-- Not modelled: the stack with hazard pointers (COstack), of which so far only the driver is; the
-- allocation of the arrays of the filter lock; the acquire-release variants; Boost's queues and
-- fifo.c of B-Queue, which are other projects' code; the Ada programs; `dumpMask`; scripts and the
-- build.
pub mod Prelude
pub mod Interleaving
pub mod Common
pub mod Blocking
pub mod Nonblocking
pub mod Driver
