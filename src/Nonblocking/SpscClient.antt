-- ===== src/Nonblocking/SpscClient.antt =====
-- benchmark/nonblocking/BoostSPSC/boost_spsc.cpp and benchmark/nonblocking/BQueue/bqueue.cpp: a
-- producer and a consumer over a queue of another project, which is a parameter. A call of the
-- queue that fails is made again; each call is one step.
pub mod Order
mod Tests
use shm_sync.Prelude.{
  ℕ, suc, ◌+◌, ◌-◌, ◌^◌, ◌≡◌, Bool, true, false, ◌==◌, if◌then◌else◌, Option, none, some, List, [],
  ◌∷◌, ◌++◌,
}

-- The calls of the queue, `none` where they fail.
pub record Queue (Q : Type 0) : Type 0 where
  pub push : ℕ → Q → Option Q
  pub pop : Q → Option (ℕ × Q)

-- What the queues document: the elements come out in the order in which they went in.
pub record IsFifo {Q : Type 0} (queue : Queue Q) (contents : Q → List ℕ) : Type 0 where
  pub pushes : (v : ℕ) (q q' : Q) → queue.push v q ≡ some q' → contents q' ≡ contents q ++ (v ∷ [])
  pub pops : (q : Q) (v : ℕ) (q' : Q) → queue.pop q ≡ some (v, q') → contents q ≡ v ∷ contents q'

-- The variables of the two loops. `value` has 32 bits, and `returned` tells whether the consumer
-- has left its loop by the `return` inside.
pub record Producer : Type 0 where
  pub i : ℕ
  pub iter : ℕ

pub record Consumer : Type 0 where
  pub i : ℕ
  pub iter : ℕ
  pub value : ℕ
  pub returned : Bool

pub record State (Q : Type 0) : Type 0 where
  pub queue : Q
  pub producer : Producer
  pub consumer : Consumer

-- The `int` -1, by its 32 bits.
abbrev pub minus_one : ℕ
minus_one = 2 ^ 32 - 1

module _ {Q : Type 0} (queue : Queue Q) where
  after_push : State Q → Option Q → State Q
  after_push s none = s
  after_push s (some q) = record s {
    queue = q;
    producer = record s.producer { i = suc s.producer.i };
  }

  -- A turn of `while (!queue->push(i))`, for what the loop pushes in turn `i`.
  pub sync_producer : (ℕ → ℕ) → State Q → State Q
  sync_producer pushed s =
      if s.producer.i == s.producer.iter
      then s
      else after_push s (queue.push (pushed s.producer.i) s.queue)

  -- The loop of BoostSPSC goes on unless the value is -1; that of BQueue, without `checks`, always.
  after_pop : Bool → State Q → Option (ℕ × Q) → State Q
  after_pop checks s none = s
  after_pop checks s (some (v, q)) =
      if checks
      then (if v == minus_one
          then record s { queue = q; consumer = record s.consumer { value = v; returned = true } }
          else record s {
            queue = q;
            consumer = record s.consumer { i = suc s.consumer.i; value = v };
          })
      else record s { queue = q; consumer = record s.consumer { i = suc s.consumer.i; value = v } }

  pub sync_consumer : Bool → State Q → State Q
  sync_consumer checks s =
      if s.consumer.returned
      then s
      else if s.consumer.i == s.consumer.iter
      then s
      else after_pop checks s (queue.pop s.queue)

  -- The states reached: any order of turns of the two loops.
  pub data Reach (pushed : ℕ → ℕ) (checks : Bool) (s : State Q) : State Q → Type 0 where
    start : Reach pushed checks s s
    produce :
        {t : State Q} → Reach pushed checks s t → Reach pushed checks s (sync_producer pushed t)
    consume :
        {t : State Q} → Reach pushed checks s t → Reach pushed checks s (sync_consumer checks t)
