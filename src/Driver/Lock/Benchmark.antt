-- ===== src/Driver/Lock/Benchmark.antt =====
-- What a driver's protocol has to do for the results on all drivers, and what the calls are
-- counted by.
use shm_sync.Prelude.{ℕ, ◌+◌, ◌≡◌, ◌==◌, ltb, ◌&&◌, if◌then◌else◌, List}
use shm_sync.Driver.Calls.{Work, Call, Step, init_stats, barrier_wait, enter_sample, call}
use shm_sync.Driver.Calls.Weigh.{weigh}
use shm_sync.Driver.Lock.{Protocol}
use shm_sync.Driver.Lock.Threads.{in_calls}

module _ {A : Type 0} where
  unfoldable pub barrier_waits : Call A → ℕ
  barrier_waits barrier_wait = 1
  barrier_waits _ = 0

  -- The iterations asked for, where `rounds` tells those of the driver's own calls.
  unfoldable pub iterations : (A → ℕ) → Call A → ℕ
  iterations rounds (call a) = rounds a
  iterations rounds _ = 0

  -- The samples entered for thread `tid`, execution `exec` and run `run`.
  unfoldable pub entries : (tid exec run : ℕ) → Call A → ℕ
  entries tid exec run (enter_sample t e r) =
      if r == run then if e == exec then if t == tid then 1 else 0 else 0 else 0
  entries tid exec run _ = 0

  -- Whether a call of `initStats` makes room for the sample.
  unfoldable pub room : (tid exec run : ℕ) → Step A → ℕ
  room tid exec run (init_stats nr_threads nr_executions nr_runs) =
      if ltb tid nr_threads && (ltb exec nr_executions && ltb run nr_runs) then 1 else 0
  room tid exec run _ = 0

  -- The protocol runs its construct only where an execution is timed, enters no samples of its own
  -- and creates no threads; every thread makes `waits` calls of `barrier_wait` in an execution.
  pub record IsBenchmark (p : Protocol A) (rounds : A → ℕ) (waits : ℕ) : Type 0 where
    pub starts : (f : List (Call A) → ℕ) (n : ℕ) → weigh (in_calls f) (p.init n) ≡ 0
    pub ends : (f : List (Call A) → ℕ) → weigh (in_calls f) p.delete ≡ 0
    pub syncs : (work : Work) (tid n iter : ℕ) → rounds (p.sync work tid n iter) ≡ iter
    pub idle_before : (n tid : ℕ) → weigh (iterations rounds) (p.before n tid) ≡ 0
    pub idle_after : (n tid : ℕ) → weigh (iterations rounds) (p.after n tid) ≡ 0
    pub silent_before : (n tid t e r : ℕ) → weigh (entries t e r) (p.before n tid) ≡ 0
    pub silent_after : (n tid t e r : ℕ) → weigh (entries t e r) (p.after n tid) ≡ 0
    pub meets :
        (n tid : ℕ)
        → weigh barrier_waits (p.before n tid) + weigh barrier_waits (p.after n tid) ≡ waits
