-- ===== src/Blocking/PosixLock/Tests.antt =====
-- Two threads over a mutex that counts how often it was locked.
use shm_sync.Prelude.{
  ℕ, suc, ◌≡◌, Bool, true, false, Option, none, some, refl, sym, ap, [], ◌∷◌, ℕ_discrete,
}
use shm_sync.Interleaving.{System, run}
use shm_sync.Blocking.Sync.{Thread, begin, critical}
use shm_sync.Blocking.PosixLock.{Pthread, IsPthread, after_lock, posix_sync, init_posix}

record Mutex : Type 0 where
  locked : Bool
  times : ℕ

abbrev take_mutex : Bool → ℕ → Option Mutex
take_mutex true k = none
take_mutex false k = some (record { locked = true; times = suc k })

abbrev pthread : Pthread Mutex
pthread = record {
  pthread_mutex_init = λ m. some (record { locked = false; times = 0 });
  pthread_mutex_lock = λ m. take_mutex m.locked m.times;
  pthread_mutex_unlock = λ m. record m { locked = false };
}

abbrev fresh : Mutex
fresh = record { locked = false; times = 0 }

pthread-IsPthread : IsPthread pthread (λ m. m.locked)
pthread-IsPthread = record {
  new_free = λ m m' e. ap (λ o. elim o [ none ↦ false | some k ↦ k.locked ]) (sym e);
  free_locks = λ m e.
      (record { locked = true; times = suc m.times }, ap (λ b. take_mutex b m.times) e, refl);
  locked_blocks = λ m e. ap (λ b. take_mutex b m.times) e;
  unlock_frees = λ m. refl;
}

abbrev contended : System Mutex (Thread (Unit {0}) (Unit {0}) (Unit {0}))
contended = run (posix_sync pthread) (begin fresh tt (λ _. 1)) (0 ∷ 0 ∷ 1 ∷ 1 ∷ [])

-- Thread 0 is in the critical section, thread 1 is not.
apart : (critical (contended.pc 0) ≡ true) × (critical (contended.pc 1) ≡ false)
unfolding run posix_sync init_posix ℕ_discrete after_lock
apart = (refl, refl)
