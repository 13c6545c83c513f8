-- ===== src/Blocking/ClhLock.antt =====
-- benchmark/blocking/CLHQueueLock/clhqueue_lock_sc.cpp: a queue lock. A thread puts its node at
-- the tail of the queue and waits for the node before it to be unlocked; that node is its own then.
pub mod Moves
pub mod Safety
pub mod Progress
mod Tests
use shm_sync.Prelude.{ℕ, suc, Bool, true, false, if◌then◌else◌, update}
use shm_sync.Interleaving.{System}
use shm_sync.Blocking.Sync.{Next, goto, return, Lock, Thread, call, sync}

-- The nodes, by their addresses, and the tail of the queue.
pub record Memory : Type 0 where
  pub locked : ℕ → Bool
  pub tail : ℕ

-- The thread-local variables.
pub record Vars : Type 0 where
  pub my_node : ℕ
  pub my_pred : ℕ

pub data Access : Type 0 where
  store_locked exchange_tail load_pred : Access

abbrev pub Worker : Type 0
Worker = Thread Vars Access (Unit {0})

pub lock : ℕ → Memory → Vars → Access → Memory × Vars × Next Access
lock i m x store_locked =
    (record m { locked = update m.locked x.my_node true }, x, goto exchange_tail)
lock i m x exchange_tail =
    (record m { tail = x.my_node }, record x { my_pred = m.tail }, goto load_pred)
lock i m x load_pred = (m, x, if m.locked x.my_pred then goto load_pred else return)

-- The second statement touches the thread's own variables only.
pub unlock : ℕ → Memory → Vars → Unit {0} → Memory × Vars × Next (Unit {0})
unlock i m x u = (
  record m { locked = update m.locked x.my_node false },
  record x { my_node = x.my_pred },
  return,
)

abbrev pub clhqueue : Lock Memory Vars Access (Unit {0})
clhqueue = record { enter = store_locked; lock = lock; leave = tt; unlock = unlock }

unfoldable pub clhqueue_sync : ℕ → Memory → Worker → Memory × Worker
unfolding sync lock unlock
clhqueue_sync = sync clhqueue

-- `common_node` has the address 0.
abbrev pub init_per_exec_global : Memory → Memory
init_per_exec_global m = record { tail = 0; locked = update m.locked 0 false }

-- `aligned_alloc` gives each thread an address of its own, here that behind its number.
abbrev pub init_per_exec_per_thread : ℕ → Vars → Vars
init_per_exec_per_thread tid x = record x { my_node = suc tid }

-- The threads before their loops.
abbrev pub begin : Memory → (ℕ → Vars) → (ℕ → ℕ) → System Memory Worker
begin m vars rounds = record {
  mem = init_per_exec_global m;
  pc = λ i. call (init_per_exec_per_thread i (vars i)) (rounds i);
}
