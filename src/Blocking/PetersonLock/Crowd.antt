-- ===== src/Blocking/PetersonLock/Crowd.antt =====
-- `peterson_lock` with more threads than two, which its driver.cpp accepts.
use shm_sync.Prelude.{ℕ, suc, ◌≤◌, ◌≡◌, true, List, [], ◌∷◌, arith, ℕ_discrete}
use shm_sync.Interleaving.{System, run, Reach, start, run-Reach}
use shm_sync.Blocking.Sync.{critical, begin}
use shm_sync.Blocking.PetersonLock.{EnvVars, Worker, peterson_lock, reset_peterson_lock}

-- With three threads or more, each with a round to run, threads 1 and 2 can reach the critical
-- section together: both take the branch of `lock` for thread 1.
pub peterson_crowd :
    (n : ℕ) (rounds : ℕ → ℕ)
    → 3 ≤ n
    → (s : System EnvVars Worker) × Reach peterson_lock n
        (begin reset_peterson_lock tt (λ i. suc (rounds i)))
        s
      × (critical (s.pc 1) ≡ true)
      × (critical (s.pc 2) ≡ true)
unfolding run peterson_lock ℕ_discrete
peterson_crowd n rounds h = (
  run peterson_lock (begin reset_peterson_lock tt (λ i. suc (rounds i))) schedule,
  run-Reach peterson_lock schedule _ start (omega arith),
  ground arith,
  ground arith,
)
  where
    schedule : List ℕ
    schedule = 1 ∷ 1 ∷ 1 ∷ 1 ∷ 2 ∷ 2 ∷ 2 ∷ 2 ∷ []
