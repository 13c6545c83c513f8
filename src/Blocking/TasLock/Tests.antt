-- ===== src/Blocking/TasLock/Tests.antt =====
-- Two threads contend for the test-and-set lock.
use shm_sync.Prelude.{ℕ, ◌≡◌, refl, arith, List, [], ◌∷◌, ℕ_discrete, true}
use shm_sync.Interleaving.{System, Reach, start, run, run-Reach}
use shm_sync.Blocking.Sync.{Thread, begin}
use shm_sync.Blocking.Sync.Progress.{Completes}
use shm_sync.Blocking.TasLock.{EnvVars, init_taslock, taslock, taslock_sync}
use shm_sync.Blocking.TasLock.Laws.{tas_exclusion, tas_completion}

abbrev stale : EnvVars
stale = record { locked = true }

abbrev fresh : System EnvVars (Thread (Unit {0}) (Unit {0}) (Unit {0}))
fresh = begin (init_taslock stale) tt (λ _. 2)

-- Thread 0 takes the lock, thread 1 tries in vain.
abbrev contended : List ℕ
contended = 0 ∷ 1 ∷ 0 ∷ 1 ∷ 1 ∷ []

abbrev contended_state : System EnvVars (Thread (Unit {0}) (Unit {0}) (Unit {0}))
contended_state = run taslock_sync fresh contended

contended-Reach : Reach taslock_sync 2 fresh contended_state
contended-Reach = run-Reach taslock_sync contended fresh start (omega arith)

tas_exclusion_example : ◌≡◌ {A = ℕ} 0 0
unfolding run taslock_sync init_taslock ℕ_discrete
tas_exclusion_example = tas_exclusion stale contended-Reach 0 0 refl refl

tas_completion_example : Completes taslock 2 contended_state
tas_completion_example = tas_completion stale contended-Reach
