-- ===== src/Blocking/PetersonLock.antt =====
-- benchmark/blocking/PetersonLock/peterson_lock_sc.cpp: Peterson's lock for two threads.
pub mod Safety
pub mod Progress
pub mod Crowd
mod Tests
use shm_sync.Prelude.{ℕ, Bool, true, false, ◌==◌, if◌then◌else◌}
use shm_sync.Blocking.Sync.{Next, goto, return, Lock, Thread, sync}

-- `struct ENV_VARS`.
pub record EnvVars : Type 0 where
  pub flag0 : ℕ
  pub flag1 : ℕ
  pub turn : ℕ

-- The accesses of `lock`. The loop reads the other thread's flag and, if that is set, `turn`.
pub data Access : Type 0 where
  store_flag exchange_turn load_flag load_turn : Access

pub lock_0 : EnvVars → Access → EnvVars × Next Access
lock_0 m store_flag = (record m { flag0 = 1 }, goto exchange_turn)
lock_0 m exchange_turn = (record m { turn = 1 }, goto load_flag)
lock_0 m load_flag = (m, if m.flag1 == 0 then return else goto load_turn)
lock_0 m load_turn = (m, if 1 == m.turn then goto load_flag else return)

pub lock_1 : EnvVars → Access → EnvVars × Next Access
lock_1 m store_flag = (record m { flag1 = 1 }, goto exchange_turn)
lock_1 m exchange_turn = (record m { turn = 0 }, goto load_flag)
lock_1 m load_flag = (m, if m.flag0 == 0 then return else goto load_turn)
lock_1 m load_turn = (m, if 0 == m.turn then goto load_flag else return)

pub lock : ℕ → EnvVars → Unit {0} → Access → EnvVars × Unit {0} × Next Access
lock tid m x a = let (m', r) = if tid == 0 then lock_0 m a else lock_1 m a in (m', x, r)

pub unlock : ℕ → EnvVars → Unit {0} → Unit {0} → EnvVars × Unit {0} × Next (Unit {0})
unlock tid m x u = (if tid == 0 then record m { flag0 = 0 } else record m { flag1 = 0 }, x, return)

abbrev pub peterson : Lock EnvVars (Unit {0}) Access (Unit {0})
peterson = record { enter = store_flag; lock = lock; leave = tt; unlock = unlock }

abbrev pub Worker : Type 0
Worker = Thread (Unit {0}) Access (Unit {0})

unfoldable pub peterson_lock : ℕ → EnvVars → Worker → EnvVars × Worker
unfolding sync lock lock_0 lock_1 unlock
peterson_lock = sync peterson

abbrev pub reset_peterson_lock : EnvVars
reset_peterson_lock = record { flag0 = 0; flag1 = 0; turn = 0 }
