-- ===== src/Driver/PetersonDriver.antt =====
-- benchmark/blocking/PetersonLock/driver.cpp: the calls of its lock that the thread function and `main`
-- make.
use shm_sync.Prelude.{ℕ, Bool, List, [], ◌∷◌, refl}
use shm_sync.Driver.Calls.{Work, Call, Step, Papi, barrier_wait, calibrate_delay, call}
use shm_sync.Driver.Calls.Weigh.{weigh}
use shm_sync.Driver.Lock.{Protocol, Options}
use shm_sync.Driver.Lock
use shm_sync.Driver.Lock.Threads.{in_calls}
use shm_sync.Driver.Lock.Benchmark.{IsBenchmark, iterations, entries, barrier_waits}

pub data Action : Type 0 where
  reset_peterson_lock : Action
  peterson_lock : (tid nr_iter : ℕ) → Work → Action

abbrev pub protocol : Protocol Action
protocol = record {
  init = λ n. calibrate_delay ∷ [];
  before = λ n tid. call reset_peterson_lock ∷ barrier_wait ∷ [];
  sync = λ work tid n iter. peterson_lock tid iter work;
  after = λ n tid. [];
  delete = [];
}

-- Every thread of the benchmark runs this with its number.
abbrev pub thread_f : Papi → (tid nr_threads nr_iter nr_exec : ℕ) → Bool → Work → List (Call Action)
thread_f = Lock.thread_f protocol

abbrev pub main : Papi → Options → List (Step Action)
main = Lock.main protocol

-- The iterations that a call performs.
unfoldable pub rounds : Action → ℕ
rounds (peterson_lock tid iter work) = iter
rounds _ = 0

pub protocol-IsBenchmark : IsBenchmark protocol rounds 1
unfolding weigh in_calls rounds iterations entries barrier_waits
protocol-IsBenchmark = record {
  starts = λ w n. refl;
  ends = λ w. refl;
  syncs = λ work tid n iter. refl;
  idle_before = λ n tid. refl;
  idle_after = λ n tid. refl;
  silent_before = λ n tid t e r. refl;
  silent_after = λ n tid t e r. refl;
  meets = λ n tid. refl;
}
