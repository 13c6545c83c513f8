-- ===== src/Blocking/ArrayLock.antt =====
-- benchmark/blocking/ArrayLock/arraylock_sc.cpp: a queue lock over an array of flags. A thread
-- takes a slot of the array by counting up `tail`, and waits for the slot's flag.
pub mod Invariant
pub mod Moves
pub mod Safety
pub mod Progress
mod Tests
use shm_sync.Prelude.{
  ℕ, zero, suc, ◌+◌, ◌%◌, ◌^◌, Bool, true, false, if◌then◌else◌, List, get_or, set, replicate,
}
use shm_sync.Blocking.Sync.{Next, goto, return, Lock, Thread, sync}

-- MAX_NR_THREADS of common/include/globals.h, the length of the array.
abbrev pub max_nr_threads : ℕ
max_nr_threads = 28

-- The globals `flags` and `tail` (`long long`, by its 64 bits). Outside the array a write is lost
-- and a read gives `false`; in C++ either is undefined.
pub record Memory : Type 0 where
  pub flags : List Bool
  pub tail : ℕ

-- The accesses of `lock` and of `unlock`. The thread-local variable is `thread_lock_slot`.
pub data LockAccess : Type 0 where
  fetch_add load_flag : LockAccess

pub data UnlockAccess : Type 0 where
  clear_own set_next : UnlockAccess

abbrev pub Worker : Type 0
Worker = Thread ℕ LockAccess UnlockAccess

module _ (nr_threads : ℕ) where
  pub lock : ℕ → Memory → ℕ → LockAccess → Memory × ℕ × Next LockAccess
  lock i m slot fetch_add =
      (record m { tail = (m.tail + 1) % 2 ^ 64 }, m.tail % nr_threads, goto load_flag)
  lock i m slot load_flag = (m, slot, if get_or m.flags slot false then return else goto load_flag)

  pub unlock : ℕ → Memory → ℕ → UnlockAccess → Memory × ℕ × Next UnlockAccess
  unlock i m slot clear_own = (record m { flags = set m.flags slot false }, slot, goto set_next)
  unlock i m slot set_next =
      (record m { flags = set m.flags ((slot + 1) % nr_threads) true }, slot, return)

  abbrev pub arraylock : Lock Memory ℕ LockAccess UnlockAccess
  arraylock = record { enter = fetch_add; lock = lock; leave = clear_own; unlock = unlock }

  unfoldable pub arraylock_sync : ℕ → Memory → Worker → Memory × Worker
  unfolding sync lock unlock
  arraylock_sync = sync arraylock

-- The loop of `init_arraylock`, up to flag `i`.
pub clear_flags : ℕ → List Bool → List Bool
clear_flags zero flags = flags
clear_flags (suc i) flags = set (clear_flags i flags) i false

unfoldable pub init_arraylock : ℕ → Memory → Memory
unfolding clear_flags
init_arraylock nr_threads m = record {
  flags = set (clear_flags nr_threads m.flags) 0 true;
  tail = 0;
}
