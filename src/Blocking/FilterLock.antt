-- ===== src/Blocking/FilterLock.antt =====
-- benchmark/blocking/FilterLock/filter_lock_sc.cpp: the filter lock of `thread_number` threads.
pub mod Invariant
pub mod Moves
pub mod Safety
mod Tests
use shm_sync.Prelude.{
  ℕ, zero, suc, ◌+◌, Bool, true, false, ◌==◌, ltb, leb, if◌then◌else◌, update, ℕ_discrete,
}
use shm_sync.Blocking.Sync.{Next, goto, return, Lock, Thread, sync}

-- `struct ENV_VARS`.
pub record EnvVars : Type 0 where
  pub levels : ℕ → ℕ
  pub victims : ℕ → ℕ

-- The variables of `lock` and of `higher_or_equal`.
pub record Vars : Type 0 where
  pub level : ℕ
  pub k : ℕ

-- The accesses of `lock`. At `entry` the loop begins, without an access; `load_level` is one round
-- of the loop of `higher_or_equal`.
pub data Access : Type 0 where
  entry store_level exchange_victim load_level load_victim : Access

-- The test of the loop over the levels, at `level`.
pub at_level : (thread_number level : ℕ) → EnvVars → EnvVars × Vars × Next Access
at_level n level m =
    (m, record { level = level; k = 0 }, if ltb level n then goto store_level else return)

pub lock : (thread_number tid : ℕ) → EnvVars → Vars → Access → EnvVars × Vars × Next Access
lock n tid m x entry = at_level n 1 m
lock n tid m x store_level =
    (record m { levels = update m.levels tid x.level }, x, goto exchange_victim)
lock n tid m x exchange_victim =
    (record m { victims = update m.victims x.level tid }, record x { k = 0 }, goto load_level)
lock n tid m x load_level =
    let next = record x { k = suc x.k } in
    if ltb x.k n
    then if x.k == tid
      then (m, next, goto load_level)
      else if leb x.level (m.levels x.k)
      then (m, x, goto load_victim)
      else (m, next, goto load_level)
    else at_level n (suc x.level) m
lock n tid m x load_victim =
    if tid == m.victims x.level
    then (m, record x { k = 0 }, goto load_level)
    else at_level n (suc x.level) m

pub unlock : (tid : ℕ) → EnvVars → Vars → Unit {0} → EnvVars × Vars × Next (Unit {0})
unlock tid m x u = (record m { levels = update m.levels tid 0 }, x, return)

abbrev pub filter : (thread_number : ℕ) → Lock EnvVars Vars Access (Unit {0})
filter n = record { enter = entry; lock = lock n; leave = tt; unlock = unlock }

abbrev pub Worker : Type 0
Worker = Thread Vars Access (Unit {0})

unfoldable pub filter_lock : (thread_number tid : ℕ) → EnvVars → Worker → EnvVars × Worker
unfolding sync lock unlock at_level
filter_lock n = sync (filter n)

abbrev pub reset_filter_lock : (tid : ℕ) → EnvVars → EnvVars
reset_filter_lock tid m = record {
  levels = update m.levels tid 0;
  victims = update m.victims tid 0;
}

-- Every thread has made its call of `reset_filter_lock`.
pub reset_all : (thread_number : ℕ) → EnvVars → EnvVars
reset_all zero m = m
reset_all (suc n) m = reset_filter_lock n (reset_all n m)
