-- ===== src/Nonblocking/MpmcClient.antt =====
-- benchmark/nonblocking/BoostMPMC/boost_mpmc.cpp: producers and consumers over one queue of Boost,
-- which is a parameter. A call of the queue that fails is made again; each call is one step.
pub mod Progress
mod Tests
use shm_sync.Prelude.{ℕ, suc, ltb, if◌then◌else◌, Option, none, some}
use shm_sync.Nonblocking.SpscClient.{Queue}

-- Which of the two routines the thread runs.
pub data Role : Type 0 where
  producer consumer : Role

pub record Thread : Type 0 where
  pub role : Role
  pub i : ℕ
  pub nr_iter : ℕ
  pub value : ℕ

-- The nodes that `queue` is made with.
abbrev pub nr_nodes : ℕ
nr_nodes = 128

module _ {Q : Type 0} (queue : Queue Q) where
  abbrev pub after_push : Q → Thread → Option Q → Q × Thread
  after_push q t none = (q, t)
  after_push q t (some q') = (q', record t { i = suc t.i })

  abbrev pub after_pop : Q → Thread → Option (ℕ × Q) → Q × Thread
  after_pop q t none = (q, t)
  after_pop q t (some (v, q')) = (q', record t { i = suc t.i; value = v })

  -- A call of the queue in the loop.
  pub sync_producer : Q → Thread → Q × Thread
  sync_producer q t = if ltb t.i t.nr_iter then after_push q t (queue.push t.i q) else (q, t)

  pub sync_consumer : Q → Thread → Q × Thread
  sync_consumer q t = if ltb t.i t.nr_iter then after_pop q t (queue.pop q) else (q, t)

  pub sync_as : Role → Q → Thread → Q × Thread
  sync_as producer q t = sync_producer q t
  sync_as consumer q t = sync_consumer q t

  -- The next call of thread `tid`.
  unfoldable pub sync : ℕ → Q → Thread → Q × Thread
  unfolding sync_as sync_producer sync_consumer
  sync tid q t = sync_as t.role q t

-- A thread at the call of its routine, where `value` is 0.
abbrev pub call : Role → ℕ → Thread
call r n = record { role = r; i = 0; nr_iter = n; value = 0 }
