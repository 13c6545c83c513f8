-- ===== src/Blocking/TatasLock.antt =====
-- benchmark/blocking/TATASLock/tatas_lock_sc.cpp: the test-and-test-and-set lock.
pub mod Laws
mod Tests
use shm_sync.Prelude.{Bool, true, false, ℕ, if◌then◌else◌}
use shm_sync.Blocking.Sync.{Next, goto, return, Lock, Thread, sync}

-- The global `locked`.
abbrev pub Memory : Type 0
Memory = Bool

-- The two accesses of `lock`: the inner loop reads the flag, and `exchange` sets it.
pub data Access : Type 0 where
  load exchange : Access

pub lock : ℕ → Memory → Unit {0} → Access → Memory × Unit {0} × Next Access
lock i locked x load = (locked, x, goto (if locked then load else exchange))
lock i locked x exchange = (true, x, if locked then goto load else return)

pub unlock : ℕ → Memory → Unit {0} → Unit {0} → Memory × Unit {0} × Next (Unit {0})
unlock i locked x u = (false, x, return)

-- The initial value of `locked`; `init_tatas_lock` does nothing.
abbrev pub initial : Memory
initial = false

abbrev pub tatas_lock : Lock Memory (Unit {0}) Access (Unit {0})
tatas_lock = record { enter = load; lock = lock; leave = tt; unlock = unlock }

unfoldable pub tatas_sync :
    ℕ → Memory → Thread (Unit {0}) Access (Unit {0}) → Memory × Thread (Unit {0}) Access (Unit {0})
unfolding sync lock unlock
tatas_sync = sync tatas_lock
