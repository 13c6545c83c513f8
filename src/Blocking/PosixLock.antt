-- ===== src/Blocking/PosixLock.antt =====
-- benchmark/blocking/POSIXMutexLock/posix_mutex_lock.cpp: the critical section under a mutex of
-- pthreads, which is a parameter.
mod Laws
mod Tests
use shm_sync.Prelude.{ℕ, ◌≡◌, Bool, true, false, Option, none, some}
use shm_sync.Blocking.Sync.{Next, goto, return, Lock, Thread, sync}

-- The calls of pthreads. `pthread_mutex_lock` blocks where it gives `none`;
-- `pthread_mutex_init` gives `none` for an error.
pub record Pthread (Mutex : Type 0) : Type 0 where
  pub pthread_mutex_init : Mutex → Option Mutex
  pub pthread_mutex_lock : Mutex → Option Mutex
  pub pthread_mutex_unlock : Mutex → Mutex

-- What POSIX says of a mutex: it is free or locked; a new one is free; one that is free can be
-- locked, and one that is locked blocks; `pthread_mutex_unlock` frees it.
pub record IsPthread {Mutex : Type 0} (p : Pthread Mutex) (locked : Mutex → Bool) : Type 0 where
  pub new_free : (m m' : Mutex) → p.pthread_mutex_init m ≡ some m' → locked m' ≡ false
  pub free_locks :
      (m : Mutex)
      → locked m ≡ false
      → (m' : Mutex) × (p.pthread_mutex_lock m ≡ some m') × (locked m' ≡ true)
  pub locked_blocks : (m : Mutex) → locked m ≡ true → p.pthread_mutex_lock m ≡ none
  pub unlock_frees : (m : Mutex) → locked (p.pthread_mutex_unlock m) ≡ false

-- A call of `pthread_mutex_lock` that blocks is made again.
pub after_lock : {Mutex : Type 0} → Mutex → Option Mutex → Mutex × Unit {0} × Next (Unit {0})
after_lock m none = (m, tt, goto tt)
after_lock m (some m') = (m', tt, return)

module _ {Mutex : Type 0} (p : Pthread Mutex) where
  pub lock : ℕ → Mutex → Unit {0} → Unit {0} → Mutex × Unit {0} × Next (Unit {0})
  lock i m x w = after_lock m (p.pthread_mutex_lock m)

  pub unlock : ℕ → Mutex → Unit {0} → Unit {0} → Mutex × Unit {0} × Next (Unit {0})
  unlock i m x u = (p.pthread_mutex_unlock m, x, return)

  abbrev pub posix_lock : Lock Mutex (Unit {0}) (Unit {0}) (Unit {0})
  posix_lock = record { enter = tt; lock = lock; leave = tt; unlock = unlock }

  unfoldable pub posix_sync :
      ℕ
      → Mutex
      → Thread (Unit {0}) (Unit {0}) (Unit {0})
      → Mutex × Thread (Unit {0}) (Unit {0}) (Unit {0})
  unfolding sync lock unlock
  posix_sync = sync posix_lock

  -- Allocates the mutex and initializes it; where either fails the program ends.
  pub init_posix : Option Mutex → Option Mutex
  init_posix none = none
  init_posix (some allocated) = p.pthread_mutex_init allocated
