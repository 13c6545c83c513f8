-- ===== src/Driver/Lock.antt =====
-- What the driver.cpp files of the locks under benchmark/blocking share: the thread function and
-- `main`. The modules beside Driver/Lock instantiate it for each driver.
pub mod Shares
pub mod Threads
pub mod Benchmark
pub mod Timed
pub mod Entries
pub mod Phases
use shm_sync.Prelude.{
  ℕ, ◌+◌, ◌-◌, ◌/◌, ◌%◌, Bool, true, false, not, ◌||◌, ◌==◌, ltb, leb, if◌then◌else◌, List, [], ◌∷◌,
  ◌++◌,
}
use shm_sync.Driver.Calls.{
  Delay, decision, Work, Call, Step, exit_failure, barrier_wait, get_real_nsec, enter_sample, call,
  return_0, barrier_init, init_stats, create, join, dump_data, Papi, repeat, when,
}

-- What a driver calls of its own lock. `before` and `after` stand around the timed part of an
-- execution; they, too, get the number of threads and the thread's own number.
pub record Protocol (A : Type 0) : Type 0 where
  pub init : ℕ → List (Step A)
  pub before : ℕ → ℕ → List (Call A)
  pub sync : Work → (tid nr_threads nr_iter : ℕ) → A
  pub after : ℕ → ℕ → List (Call A)
  pub delete : List (Step A)

-- The command line as cxxopts parses it: the variables, and how often `-h` and positional
-- arguments occur. The counts (`int`) are not negative.
pub record Options : Type 0 where
  pub nr_exec : ℕ
  pub nr_iter : ℕ
  pub nr_threads : ℕ
  pub sc_runs : Bool
  pub ovw_stats : Bool
  pub uin : ℕ
  pub uout : ℕ
  pub help : ℕ
  pub positional : ℕ

-- MAX_ALLOC_NR_THREADS of common/include/globals.h.
abbrev pub max_alloc_nr_threads : ℕ
max_alloc_nr_threads = 4096

-- The iterations of thread `tid`, dealt out to `parties` threads.
pub iter_per_thread : (nr_iter parties tid : ℕ) → ℕ
iter_per_thread nr_iter parties tid =
    nr_iter / parties + (if ltb tid (nr_iter % parties) then 1 else 0)

module _ {A : Type 0} (p : Protocol A) (papi : Papi) where
  -- The body of the loop on `exec`.
  unfoldable pub execution :
      (tid nr_threads iter : ℕ) → Bool → Work → (run exec : ℕ) → List (Call A)
  execution tid nr_threads iter sc_runs work run exec =
      p.before nr_threads tid
      ++ when (not sc_runs || leb tid run) (
          get_real_nsec
          ∷ call (p.sync work tid nr_threads iter)
          ∷ get_real_nsec
          ∷ enter_sample tid exec run
          ∷ [])
      ++ p.after nr_threads tid

  pub thread_f : (tid nr_threads nr_iter nr_exec : ℕ) → Bool → Work → List (Call A)
  thread_f tid nr_threads nr_iter nr_exec sc_runs work =
      let lower_bound : ℕ = if sc_runs then 1 else nr_threads in
      if papi.thread_init tid
      then repeat (nr_threads - lower_bound + 1) (λ run.
        let iter = iter_per_thread nr_iter (if sc_runs then run + 1 else nr_threads) tid in
        repeat nr_exec (execution tid nr_threads iter sc_runs work run))
      else exit_failure ∷ []

  -- `main`, after the options are parsed. `exit(EXIT_FAILURE)` in a thread ends the process.
  pub main : Options → List (Step A)
  main o =
      if ltb 0 o.help || ltb 0 o.positional
      then exit_failure ∷ []
      else if ltb max_alloc_nr_threads o.nr_threads
      then exit_failure ∷ []
      else if not papi.library_init
      then exit_failure ∷ []
      else barrier_init o.nr_threads
        ∷ init_stats o.nr_threads o.nr_exec (if o.sc_runs then o.nr_threads else 1)
        ∷ (p.init o.nr_threads
            ++ repeat o.nr_threads (λ tid.
              create tid (
                thread_f tid o.nr_threads o.nr_iter o.nr_exec o.sc_runs (record {
                  ui = o.uin;
                  uo = o.uout;
                  useful_in = decision Delay.useful_work_ns o.uin;
                  useful_out = decision Delay.useful_work_ns o.uout;
                }))
              ∷ [])
            ++ repeat o.nr_threads (λ tid. join tid ∷ [])
            ++ dump_data o.ovw_stats ∷ (p.delete ++ return_0 ∷ []))
