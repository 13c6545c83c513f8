-- ===== src/Blocking/ArrayLock/Tests.antt =====
-- Two threads over the array lock.
use shm_sync.Prelude.{ℕ, ◌≡◌, false, refl, arith, List, [], ◌∷◌, ℕ_discrete, replicate, sum_below}
use shm_sync.Interleaving.{System, start, run, run-Reach}
use shm_sync.Blocking.Sync.{begin}
use shm_sync.Blocking.Sync.Progress.{Completes}
use shm_sync.Blocking.ArrayLock.{Memory, Worker, arraylock, arraylock_sync, init_arraylock}
use shm_sync.Blocking.ArrayLock.Safety.{Reached, array_exclusion}
use shm_sync.Blocking.ArrayLock.Progress.{array_completion}

abbrev static : Memory
static = record { flags = replicate 28 false; tail = 0 }

abbrev rounds : ℕ → ℕ
rounds i = 2

abbrev fresh : System Memory Worker
fresh = begin (init_arraylock 2 static) 0 rounds

-- Thread 1 comes first and enters; thread 0 waits.
abbrev schedule : List ℕ
schedule = 1 ∷ 0 ∷ 1 ∷ 0 ∷ 0 ∷ 1 ∷ 0 ∷ []

abbrev contended : System Memory Worker
contended = run (arraylock_sync 2) fresh schedule

contended-Reached : Reached 2 static rounds contended
contended-Reached = run-Reach (arraylock_sync 2) schedule fresh start (omega arith)

array_exclusion_example : ◌≡◌ {A = ℕ} 1 1
unfolding run arraylock_sync init_arraylock ℕ_discrete sum_below
array_exclusion_example =
    array_exclusion static (omega arith) refl (omega arith) contended-Reached 1 1 refl refl

array_completion_example : Completes (arraylock 2) 2 contended
unfolding sum_below
array_completion_example =
    array_completion static (omega arith) refl (omega arith) contended-Reached
