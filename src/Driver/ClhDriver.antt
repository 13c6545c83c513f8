-- ===== src/Driver/ClhDriver.antt =====
-- benchmark/blocking/CLHQueueLock/driver.cpp: the calls of its lock that the thread function and `main`
-- make.
use shm_sync.Prelude.{ℕ, Bool, ◌==◌, Bool-cases, inl, inr, List, [], ◌∷◌, ◌++◌, arith, refl}
use shm_sync.Driver.Calls.{Work, Call, Step, Papi, barrier_wait, calibrate_delay, call, when}
use shm_sync.Driver.Calls.Weigh.{weigh}
use shm_sync.Driver.Lock.{Protocol, Options}
use shm_sync.Driver.Lock
use shm_sync.Driver.Lock.Threads.{in_calls}
use shm_sync.Driver.Lock.Benchmark.{IsBenchmark, iterations, entries, barrier_waits}

pub data Action : Type 0 where
  init_clhqueue_lock : Action
  init_per_exec_global : Action
  init_per_exec_per_thread : Action
  clhqueue_sync : (nr_iter : ℕ) → Work → Action
  delete_per_thread : Action
  delete_clhqueue_lock : Action

abbrev pub protocol : Protocol Action
protocol = record {
  init = λ n. call init_clhqueue_lock ∷ calibrate_delay ∷ [];
  before = λ n tid.
      (barrier_wait ∷ [])
      ++ when (tid == 0) (call init_per_exec_global ∷ [])
      ++ (call init_per_exec_per_thread ∷ barrier_wait ∷ []);
  sync = λ work tid n iter. clhqueue_sync iter work;
  after = λ n tid. barrier_wait ∷ call delete_per_thread ∷ [];
  delete = call delete_clhqueue_lock ∷ [];
}

-- Every thread of the benchmark runs this with its number.
abbrev pub thread_f : Papi → (tid nr_threads nr_iter nr_exec : ℕ) → Bool → Work → List (Call Action)
thread_f = Lock.thread_f protocol

abbrev pub main : Papi → Options → List (Step Action)
main = Lock.main protocol

-- The iterations that a call performs.
unfoldable pub rounds : Action → ℕ
rounds (clhqueue_sync iter work) = iter
rounds _ = 0

pub protocol-IsBenchmark : IsBenchmark protocol rounds 3
unfolding weigh in_calls rounds iterations entries barrier_waits
protocol-IsBenchmark = record {
  starts = λ w n. refl;
  ends = λ w. refl;
  syncs = λ work tid n iter. refl;
  idle_before =
      λ n tid. elim (Bool-cases (tid == 0)) [ inl e ↦ ground arith | inr e ↦ ground arith ];
  idle_after = λ n tid. refl;
  silent_before =
      λ n tid t e r. elim (Bool-cases (tid == 0)) [ inl e ↦ ground arith | inr e ↦ ground arith ];
  silent_after = λ n tid t e r. refl;
  meets = λ n tid. elim (Bool-cases (tid == 0)) [ inl e ↦ ground arith | inr e ↦ ground arith ];
}
