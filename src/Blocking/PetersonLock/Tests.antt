-- ===== src/Blocking/PetersonLock/Tests.antt =====
-- Thread 0 is in the critical section, thread 1 waits.
use shm_sync.Prelude.{ℕ, ◌≡◌, true, false, refl, arith, List, [], ◌∷◌, ℕ_discrete, suc}
use shm_sync.Interleaving.{System, Reach, start, run, run-Reach}
use shm_sync.Blocking.Sync.{begin, critical}
use shm_sync.Blocking.PetersonLock.{peterson, EnvVars, Worker, peterson_lock, reset_peterson_lock}
use shm_sync.Blocking.PetersonLock.Safety.{peterson_exclusion}
use shm_sync.Blocking.PetersonLock.Progress.{peterson_completion}
use shm_sync.Blocking.Sync.Progress.{Completes}
use shm_sync.Blocking.PetersonLock.Crowd.{peterson_crowd}

abbrev rounds : ℕ → ℕ
rounds i = 1

-- Thread 1 contends as well, and has exchanged `turn` last.
abbrev schedule : List ℕ
schedule = 0 ∷ 1 ∷ 0 ∷ 1 ∷ 0 ∷ 1 ∷ 1 ∷ 0 ∷ 0 ∷ []

abbrev contended : System EnvVars Worker
contended = run peterson_lock (begin reset_peterson_lock tt rounds) schedule

contended-Reach : Reach peterson_lock 2 (begin reset_peterson_lock tt rounds) contended
contended-Reach = run-Reach peterson_lock schedule _ start (omega arith)

peterson_exclusion_example : critical (contended.pc 1) ≡ false
unfolding run peterson_lock ℕ_discrete
peterson_exclusion_example = peterson_exclusion rounds contended-Reach refl

peterson_completion_example : Completes peterson 2 contended
peterson_completion_example = peterson_completion rounds contended-Reach

peterson_crowd_example :
    (s : System EnvVars Worker) × Reach peterson_lock 3
      (begin reset_peterson_lock tt (λ i. suc (rounds i)))
      s
    × (critical (s.pc 1) ≡ true)
    × (critical (s.pc 2) ≡ true)
peterson_crowd_example = peterson_crowd 3 rounds (omega arith)
