-- ===== src/Common/Barrier.antt =====
-- common/barrier/barrier.cpp: a barrier of one counter for each thread.
pub mod Separation
pub mod Progress
mod Tests
use shm_sync.Prelude.{ℕ, zero, suc, ◌+◌, ◌%◌, ◌^◌, Bool, ltb, ◌==◌, if◌then◌else◌, update}
use shm_sync.Interleaving.{System}

-- `aligned_ctr ctr[]`. The counters have 64 bits.
abbrev pub Counters : Type 0
Counters = ℕ → ℕ

abbrev pub u64 : ℕ → ℕ
u64 x = x % 2 ^ 64

-- Clears the counters of the first `nr_threads` threads.
pub barrier_init : ℕ → Counters → Counters
barrier_init zero ctr = ctr
barrier_init (suc i) ctr = update (barrier_init i ctr) i 0

-- Where a thread stands: between two calls, or in `barrier_wait` behind its increment, or in the
-- loop with the level that it waits for and the thread that it looks at.
pub data Place : Type 0 where
  outside : Place
  counted : Place
  scanning : (my_level thr : ℕ) → Place
  finished : Place

-- `passed` calls of `barrier_wait` have returned; the thread makes `calls` of them.
pub record Thread : Type 0 where
  pub place : Place
  pub passed : ℕ
  pub calls : ℕ

module _ (nr_threads : ℕ) where
  -- One access of `barrier_wait(tid)`; at `outside` the caller calls it once more or is through.
  wait_at : ℕ → Counters → Thread → Place → Counters × Thread
  wait_at tid ctr t outside =
      if t.passed == t.calls
      then (ctr, record t { place = finished })
      else (update ctr tid (u64 (ctr tid + 1)), record t { place = counted })
  wait_at tid ctr t counted = (ctr, record t { place = scanning (ctr tid) 0 })
  wait_at tid ctr t (scanning my_level thr) =
      if ltb thr nr_threads
      then (
        ctr,
        record t { place = scanning my_level (if ltb (ctr thr) my_level then thr else suc thr) },
      )
      else (ctr, record t { place = outside; passed = suc t.passed })
  wait_at tid ctr t finished = (ctr, record t { place = finished })

  unfoldable pub barrier_wait : ℕ → Counters → Thread → Counters × Thread
  unfolding wait_at
  barrier_wait tid ctr t = wait_at tid ctr t t.place

-- All threads before their first call, each to make `calls` calls.
abbrev pub begin : ℕ → Counters → ℕ → System Counters Thread
begin nr_threads ctr calls = record {
  mem = barrier_init nr_threads ctr;
  pc = λ i. record { place = outside; passed = 0; calls = calls };
}
