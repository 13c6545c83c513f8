-- ===== src/Driver/ArrayDriver.antt =====
-- benchmark/blocking/ArrayLock/driver.cpp: the calls of its lock that the thread function and `main`
-- make.
use shm_sync.Prelude.{ℕ, Bool, ◌==◌, Bool-cases, inl, inr, List, [], ◌∷◌, ◌++◌, arith, refl}
use shm_sync.Driver.Calls.{Work, Call, Step, Papi, barrier_wait, calibrate_delay, call, when}
use shm_sync.Driver.Calls.Weigh.{weigh}
use shm_sync.Driver.Lock.{Protocol, Options}
use shm_sync.Driver.Lock
use shm_sync.Driver.Lock.Threads.{in_calls}
use shm_sync.Driver.Lock.Benchmark.{IsBenchmark, iterations, entries, barrier_waits}

pub data Action : Type 0 where
  init_arraylock : (nr_threads : ℕ) → Action
  arraylock_sync : (tid nr_threads nr_iter : ℕ) → Work → Action
  delete_arraylock : Action

abbrev pub protocol : Protocol Action
protocol = record {
  init = λ n. call (init_arraylock n) ∷ calibrate_delay ∷ [];
  before = λ n tid.
      (barrier_wait ∷ []) ++ when (tid == 0) (call (init_arraylock n) ∷ []) ++ (barrier_wait ∷ []);
  sync = λ work tid n iter. arraylock_sync tid n iter work;
  after = λ n tid. [];
  delete = call delete_arraylock ∷ [];
}

-- Every thread of the benchmark runs this with its number.
abbrev pub thread_f : Papi → (tid nr_threads nr_iter nr_exec : ℕ) → Bool → Work → List (Call Action)
thread_f = Lock.thread_f protocol

abbrev pub main : Papi → Options → List (Step Action)
main = Lock.main protocol

-- The iterations that a call performs.
unfoldable pub rounds : Action → ℕ
rounds (arraylock_sync tid n iter work) = iter
rounds _ = 0

pub protocol-IsBenchmark : IsBenchmark protocol rounds 2
unfolding weigh in_calls rounds iterations entries barrier_waits
protocol-IsBenchmark = record {
  starts = λ w n. refl;
  ends = λ w. refl;
  syncs = λ work tid n iter. refl;
  idle_before =
      λ n tid. elim (Bool-cases (tid == 0)) [ inl e ↦ ground arith | inr e ↦ ground arith ];
  idle_after = λ n tid. refl;
  silent_before =
      λ n tid t e r. elim (Bool-cases (tid == 0)) [ inl e ↦ ground arith | inr e ↦ ground arith ];
  silent_after = λ n tid t e r. refl;
  meets = λ n tid. elim (Bool-cases (tid == 0)) [ inl e ↦ ground arith | inr e ↦ ground arith ];
}
