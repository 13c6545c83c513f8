-- ===== src/Blocking/MutexLock/Tests.antt =====
-- Thread 1 waits for the mutex that thread 0 owns.
use shm_sync.Prelude.{◌≡◌, true, false, refl, [], ◌∷◌, ℕ_discrete}
use shm_sync.Interleaving.{System, run}
use shm_sync.Blocking.Sync.{Thread, begin, critical}
use shm_sync.Blocking.MutexLock.{Mutex, fresh, cpp11_mutex_sync}

abbrev owner_inside : System Mutex (Thread (Unit {0}) (Unit {0}) (Unit {0}))
owner_inside = run cpp11_mutex_sync (begin fresh tt (λ _. 3)) (1 ∷ 0 ∷ 0 ∷ 1 ∷ 1 ∷ [])

apart : (critical (owner_inside.pc 0) ≡ true) × (critical (owner_inside.pc 1) ≡ false)
unfolding run cpp11_mutex_sync ℕ_discrete
apart = (refl, refl)
