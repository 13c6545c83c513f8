-- ===== src/Blocking/FilterLock/Tests.antt =====
-- Three threads at the filter lock. Thread 0 comes to its critical section while thread 1 waits at
-- level 1, as its victim, and thread 2 has stored the level.
use shm_sync.Prelude.{ℕ, ◌≡◌, false, refl, arith, List, ◌++◌, replicate, ℕ_discrete}
use shm_sync.Interleaving.{System, start, run, run-Reach}
use shm_sync.Blocking.Sync.{begin, critical}
use shm_sync.Blocking.FilterLock.{EnvVars, Vars, Worker, filter_lock, reset_all}
use shm_sync.Blocking.FilterLock.Safety.{Reached, filter_exclusion}

abbrev garbage : EnvVars
garbage = record { levels = λ i. 7; victims = λ i. 9 }

abbrev unset : Vars
unset = record { level = 5; k = 5 }

abbrev schedule : List ℕ
schedule =
    replicate 4 0
    ++ replicate 4 1
    ++ replicate 4 0
    ++ replicate 6 1
    ++ replicate 3 2
    ++ replicate 5 0

abbrev contended : System EnvVars Worker
contended = run (filter_lock 3) (begin (reset_all 3 garbage) unset (λ i. 1)) schedule

contended-Reached : Reached 3 garbage unset (λ i. 1) contended
contended-Reached = run-Reach (filter_lock 3) schedule _ start (omega arith)

filter_exclusion_example : critical (contended.pc 1) ≡ false
unfolding run filter_lock reset_all ℕ_discrete
filter_exclusion_example =
    filter_exclusion 3 garbage unset (λ i. 1) contended-Reached 0 1 (omega arith) (omega arith)
      (λ e. omega arith) refl
