-- ===== src/Blocking/MutexStack.antt =====
-- benchmark/blocking/C++11MutexStack/mutexstack.cpp: a linked stack whose operations hold a
-- `std::mutex`, so each of them is one step. A turn of the loop in `pop` that finds the stack
-- empty leaves it as it was. The destructor is not modelled.
pub mod Refinement
mod Balance
mod Tests
use shm_sync.Prelude.{
  ℕ, zero, suc, ◌+◌, Bool, true, false, ◌==◌, if◌then◌else◌, Option, none, some, List, [], ◌∷◌,
  update,
}

-- `struct node`. An address is a number, and no address is `nullptr`. The shared pointer is the
-- datum that it points to.
pub record Node : Type 0 where
  pub data_ : ℕ
  pub next : Option ℕ

-- The nodes that `new` made and `delete` has not freed. `new` gives the address `unused`, which it
-- has not given before.
pub record Heap : Type 0 where
  pub cells : ℕ → Option Node
  pub unused : ℕ

pub record Stack : Type 0 where
  pub heap : Heap
  pub head : Option ℕ

abbrev pub new_node : ℕ → Option ℕ → Heap → Heap
new_node value next h = record {
  cells = update h.cells h.unused (some (record { data_ = value; next = next }));
  unused = suc h.unused;
}

abbrev pub delete_node : ℕ → Heap → Heap
delete_node a h = record h { cells = update h.cells a none }

-- The constructor makes a first node.
pub threadsafe_stack : Heap → Stack
threadsafe_stack h = record { heap = new_node 0 none h; head = some h.unused }

pub push : ℕ → Stack → Stack
push new_value s = record { heap = new_node new_value s.head s.heap; head = some s.heap.unused }

-- A turn of the loop in `pop`: it goes round again, it has popped, or it reads a freed node.
pub data Outcome : Type 0 where
  retry undefined : Outcome
  popped : Stack → Outcome

pop_node : Stack → ℕ → Option Node → Outcome
pop_node s a none = undefined
pop_node s a (some n) = popped (record { heap = delete_node a s.heap; head = n.next })

pop_at : Stack → Option ℕ → Outcome
pop_at s none = retry
pop_at s (some a) = pop_node s a (s.heap.cells a)

pub pop : Stack → Outcome
pop s = pop_at s s.head

-- A thread in `sync_producer` or `sync_consumer`, before turn `i` of its loop.
pub record Thread : Type 0 where
  pub producer : Bool
  pub i : ℕ
  pub iter : ℕ

-- The memory is `none` once a freed node has been read.
after_pop : Option Stack → Thread → Outcome → Option Stack × Thread
after_pop m t retry = (m, t)
after_pop m t undefined = (none, t)
after_pop m t (popped s) = (some s, record t { i = suc t.i })

pub sync_producer : Option Stack → Thread → Option Stack × Thread
sync_producer none t = (none, t)
sync_producer (some s) t = (some (push t.i s), record t { i = suc t.i })

pub sync_consumer : Option Stack → Thread → Option Stack × Thread
sync_consumer none t = (none, t)
sync_consumer (some s) t = after_pop (some s) t (pop s)

unfoldable pub sync : ℕ → Option Stack → Thread → Option Stack × Thread
sync tid m t =
    if t.i == t.iter then (m, t) else if t.producer then sync_producer m t else sync_consumer m t
