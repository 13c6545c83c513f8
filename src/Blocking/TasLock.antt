-- ===== src/Blocking/TasLock.antt =====
-- benchmark/blocking/TASLock/taslock_sc.cpp: the test-and-set lock.
pub mod Laws
mod Tests
use shm_sync.Prelude.{Bool, true, false, ℕ, if◌then◌else◌}
use shm_sync.Blocking.Sync.{Next, goto, return, Lock, Thread, sync}

-- The `locked` flag of `env_vars`; its `thread_vars` are never used.
pub record EnvVars : Type 0 where
  pub locked : Bool

-- `locked.test_and_set()`: the flag's old value, and the memory with the flag set.
abbrev pub test_and_set : EnvVars → EnvVars × Bool
test_and_set m = (record m { locked = true }, m.locked)

abbrev pub clear : EnvVars → EnvVars
clear m = record m { locked = false }

-- One round of the loop in `lock`.
pub lock : ℕ → EnvVars → Unit {0} → Unit {0} → EnvVars × Unit {0} × Next (Unit {0})
lock i m x w = let (m', was) = test_and_set m in (m', x, if was then goto w else return)

pub unlock : ℕ → EnvVars → Unit {0} → Unit {0} → EnvVars × Unit {0} × Next (Unit {0})
unlock i m x u = (clear m, x, return)

unfoldable pub init_taslock : EnvVars → EnvVars
init_taslock m = clear m

abbrev pub taslock : Lock EnvVars (Unit {0}) (Unit {0}) (Unit {0})
taslock = record { enter = tt; lock = lock; leave = tt; unlock = unlock }

unfoldable pub taslock_sync :
    ℕ
    → EnvVars
    → Thread (Unit {0}) (Unit {0}) (Unit {0})
    → EnvVars × Thread (Unit {0}) (Unit {0}) (Unit {0})
unfolding sync lock unlock
taslock_sync = sync taslock
