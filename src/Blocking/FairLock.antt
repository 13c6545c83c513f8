-- ===== src/Blocking/FairLock.antt =====
-- benchmark/blocking/Taubenfeld/fair_lock_sc.cpp: Taubenfeld's fair synchronization around a
-- test-and-test-and-set lock. The loop's `lock` here is `entry_section` and then `lock`, its
-- `unlock` is `unlock` and then `exit_section`.
mod Laws
mod Tests
use shm_sync.Prelude.{ℕ, zero, suc, ◌+◌, ◌-◌, Bool, true, false, ◌==◌, ltb, if◌then◌else◌, update}
use shm_sync.Blocking.Sync.{Next, goto, return, Lock, Thread, sync}

pub record Memory : Type 0 where
  pub group : ℕ
  pub state : ℕ → ℕ
  pub locked : Bool

-- The value that the last access has read.
abbrev pub Seen : Type 0
Seen = ℕ

-- The accesses of `entry_section` and of `lock`; `j` is the thread that the waiting section looks
-- at. A thread's own state is 0 or 1 in the waiting section.
pub data Entry : Type 0 where
  store_doorway load_group store_group : Entry
  load_own compare_group await_doorway load_other compare_own : (j : ℕ) → Entry
  await_other await_own await_state await_group : (j : ℕ) → Entry
  load_locked exchange_locked : Entry

pub data Exit : Type 0 where
  store_unlocked load_state store_group store_inactive : Exit

module _ (nr_threads : ℕ) where
  pub entry_section : ℕ → Memory → Seen → Entry → Memory × Seen × Next Entry
  entry_section i m x store_doorway = (record m { state = update m.state i 2 }, x, goto load_group)
  entry_section i m x load_group = (m, m.group, goto store_group)
  entry_section i m x store_group = (record m { state = update m.state i x }, x, goto (load_own 0))
  entry_section i m x (load_own j) =
      (m, m.state i, goto (if ltb j nr_threads then compare_group j else load_locked))
  entry_section i m x (compare_group j) =
      (m, x, goto (if x == m.group then await_doorway j else load_locked))
  entry_section i m x (await_doorway j) =
      (m, x, goto (if m.state j == 2 then await_doorway j else load_other j))
  entry_section i m x (load_other j) = (m, m.state j, goto (compare_own j))
  entry_section i m x (compare_own j) =
      (m, x, goto (if x + m.state i == 1 then await_other j else load_own (suc j)))
  entry_section i m x (await_other j) = (m, m.state j, goto (await_own j))
  entry_section i m x (await_own j) =
      (m, x, goto (if x + m.state i == 1 then await_state j else load_own (suc j)))
  entry_section i m x (await_state j) = (m, m.state i, goto (await_group j))
  entry_section i m x (await_group j) =
      (m, x, goto (if x == m.group then await_other j else load_own (suc j)))
  entry_section i m x load_locked = (m, x, goto (if m.locked then load_locked else exchange_locked))
  entry_section i m x exchange_locked =
      (record m { locked = true }, x, if m.locked then goto load_locked else return)

  pub exit_section : ℕ → Memory → Seen → Exit → Memory × Seen × Next Exit
  exit_section i m x store_unlocked = (record m { locked = false }, x, goto load_state)
  exit_section i m x load_state = (m, m.state i, goto store_group)
  exit_section i m x store_group = (record m { group = 1 - x }, x, goto store_inactive)
  exit_section i m x store_inactive = (record m { state = update m.state i 3 }, x, return)

  abbrev pub fair : Lock Memory Seen Entry Exit
  fair = record {
    enter = store_doorway;
    lock = entry_section;
    leave = store_unlocked;
    unlock = exit_section;
  }

  unfoldable pub fair_sync : ℕ → Memory → Thread Seen Entry Exit → Memory × Thread Seen Entry Exit
  unfolding sync entry_section exit_section
  fair_sync = sync fair

-- `group` and `locked` are initialized where they are declared, `state` by the loop up to thread
-- `nr_threads`.
pub clear_states : ℕ → (ℕ → ℕ) → ℕ → ℕ
clear_states zero state = state
clear_states (suc tid) state = update (clear_states tid state) tid 3

abbrev pub init_fair_lock : ℕ → (ℕ → ℕ) → Memory
init_fair_lock nr_threads allocated = record {
  group = 0;
  state = clear_states nr_threads allocated;
  locked = false;
}
