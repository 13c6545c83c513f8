-- ===== src/Driver/Pair.antt =====
-- What the driver.cpp files of the stacks and queues share: the functions of the producers and the
-- consumers, and `main`. The modules beside Driver/Pair instantiate it for each driver. The names
-- of the files that `dumpData` writes are left out.
pub mod Threads
pub mod Totals
use shm_sync.Prelude.{
  ℕ, ◌+◌, ◌-◌, ◌*◌, ◌/◌, ◌%◌, Bool, true, false, not, ◌||◌, ltb, leb, if◌then◌else◌, List, [], ◌∷◌,
  ◌++◌,
}
use shm_sync.Driver.Calls.{
  Call, Step, exit_failure, barrier_wait, get_real_nsec, enter_sample, call, return_0, barrier_init,
  init_stats, create, join, dump_range, delete_samples, Papi, repeat, when,
}
use shm_sync.Driver.Lock.{iter_per_thread, max_alloc_nr_threads}

-- What differs between the drivers: the calls of the stack or queue, which get the pair's number,
-- the thread's and the iterations; the number of runs; and the index by which a consumer takes its
-- part of the remainder, from the number of pairs and its own, in scaling runs or else.
pub record Protocol (A : Type 0) : Type 0 where
  pub init : ℕ → List (Step A)
  pub produce : (pair tid nr_iter : ℕ) → A
  pub consume : (pair tid nr_iter : ℕ) → A
  pub runs : Bool → ℕ → ℕ
  pub dealt_to : Bool → (nr_pairs tid : ℕ) → ℕ
  pub delete : ℕ → List (Step A)

-- The command line as cxxopts parses it. The counts (`int`) are not negative.
pub record Options : Type 0 where
  pub nr_exec : ℕ
  pub nr_iter : ℕ
  pub nr_pairs : ℕ
  pub sc_runs : Bool
  pub ovw_stats : Bool
  pub help : ℕ
  pub positional : ℕ

module _ {A : Type 0} (p : Protocol A) (papi : Papi) where
  -- The loops of a thread. `rank` is what the run is compared with, `index` what the remainder is
  -- dealt by.
  pub worker : (sync : ℕ → A) (tid rank index nr_pairs nr_iter nr_exec : ℕ) → Bool → List (Call A)
  worker sync tid rank index nr_pairs nr_iter nr_exec sc_runs =
      if papi.thread_init tid
      then repeat (p.runs sc_runs nr_pairs) (λ run.
        let iter = iter_per_thread nr_iter (if sc_runs then run + 1 else nr_pairs) index in
        repeat nr_exec (λ exec.
          barrier_wait
          ∷ when (not sc_runs || leb rank run)
              (get_real_nsec ∷ call (sync iter) ∷ get_real_nsec ∷ enter_sample tid exec run ∷ [])))
      else exit_failure ∷ []

  pub f_prod : (pair tid nr_pairs nr_iter nr_exec : ℕ) → Bool → List (Call A)
  f_prod pair tid nr_pairs nr_iter nr_exec sc_runs =
      worker (p.produce pair tid) tid tid tid nr_pairs nr_iter nr_exec sc_runs

  pub f_cons : (pair tid nr_pairs nr_iter nr_exec : ℕ) → Bool → List (Call A)
  f_cons pair tid nr_pairs nr_iter nr_exec sc_runs =
      worker (p.consume pair tid) tid (tid - nr_pairs) (p.dealt_to sc_runs nr_pairs tid) nr_pairs
        nr_iter nr_exec sc_runs

  -- `main`, after the options are parsed.
  pub main : Options → List (Step A)
  main o =
      let n = o.nr_pairs in
      if ltb 0 o.help || ltb 0 o.positional
      then exit_failure ∷ []
      else if ltb max_alloc_nr_threads (2 * n)
      then exit_failure ∷ []
      else if not papi.library_init
      then exit_failure ∷ []
      else barrier_init (2 * n)
        ∷ init_stats (2 * n) o.nr_exec (if o.sc_runs then n else 1)
        ∷ (p.init n
            ++ repeat n (λ tid.
              create tid (f_prod tid tid n o.nr_iter o.nr_exec o.sc_runs)
              ∷ create (tid + n) (f_cons tid (tid + n) n o.nr_iter o.nr_exec o.sc_runs)
              ∷ [])
            ++ repeat n (λ tid. join tid ∷ join (tid + n) ∷ [])
            ++ dump_range o.ovw_stats 0 n
              ∷ dump_range o.ovw_stats n (2 * n)
              ∷ delete_samples
              ∷ (p.delete n ++ return_0 ∷ []))
