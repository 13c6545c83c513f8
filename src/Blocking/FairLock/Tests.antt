-- ===== src/Blocking/FairLock/Tests.antt =====
-- Two threads in the same group contend for the inner lock.
use shm_sync.Prelude.{ℕ, ◌≡◌, refl, arith, List, [], ◌∷◌, ℕ_discrete}
use shm_sync.Interleaving.{System, start, run, run-Reach}
use shm_sync.Blocking.Sync.{Thread, begin}
use shm_sync.Blocking.FairLock.{Memory, Seen, Entry, Exit, fair_sync, init_fair_lock, clear_states}
use shm_sync.Blocking.FairLock.Laws.{fair_exclusion}

abbrev fresh : System Memory (Thread Seen Entry Exit)
fresh = begin (init_fair_lock 2 (λ _. 9)) 0 (λ _. 1)

-- Thread 1 gets through the waiting section and into the critical section; thread 0 then waits.
abbrev schedule : List ℕ
schedule =
    0 ∷ 0 ∷ 0 ∷ 1 ∷ 1 ∷ 1 ∷ 0 ∷ 1 ∷ 1 ∷ 1 ∷ 1 ∷ 1 ∷ 1 ∷ 1 ∷ 1 ∷ 1 ∷ 1 ∷ 1 ∷ 1 ∷ 1 ∷ 1 ∷ 0 ∷ 0 ∷ []

fair_exclusion_example : ◌≡◌ {A = ℕ} 1 1
unfolding run fair_sync clear_states ℕ_discrete
fair_exclusion_example =
    fair_exclusion {n = 2} (λ _. 9) (run-Reach (fair_sync 2) schedule fresh start (omega arith)) 1 1
      refl refl
