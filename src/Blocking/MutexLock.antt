-- ===== src/Blocking/MutexLock.antt =====
-- benchmark/blocking/C++11MutexLock/cpp11_mutex_lock.cpp: a `std::mutex` around the critical
-- section.
mod Laws
mod Tests
use shm_sync.Prelude.{ℕ, Bool, true, false, if◌then◌else◌}
use shm_sync.Blocking.Sync.{Next, goto, return, Lock, Thread, sync}

-- The `std::mutex`, by whether a thread owns it.
pub record Mutex : Type 0 where
  pub owned : Bool

-- `mutex_lock.lock()` blocks while a thread owns the mutex: the step is tried until it takes it.
pub lock : ℕ → Mutex → Unit {0} → Unit {0} → Mutex × Unit {0} × Next (Unit {0})
lock i m x w = if m.owned then (m, x, goto w) else (record m { owned = true }, x, return)

pub unlock : ℕ → Mutex → Unit {0} → Unit {0} → Mutex × Unit {0} × Next (Unit {0})
unlock i m x u = (record m { owned = false }, x, return)

abbrev pub mutex_lock : Lock Mutex (Unit {0}) (Unit {0}) (Unit {0})
mutex_lock = record { enter = tt; lock = lock; leave = tt; unlock = unlock }

-- The constructor of `std::mutex` leaves it free.
abbrev pub fresh : Mutex
fresh = record { owned = false }

unfoldable pub cpp11_mutex_sync :
    ℕ
    → Mutex
    → Thread (Unit {0}) (Unit {0}) (Unit {0})
    → Mutex × Thread (Unit {0}) (Unit {0}) (Unit {0})
unfolding sync lock unlock
cpp11_mutex_sync = sync mutex_lock
