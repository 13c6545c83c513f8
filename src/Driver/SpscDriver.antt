-- ===== src/Driver/SpscDriver.antt =====
-- benchmark/nonblocking/BoostSPSC/driver.cpp: the calls of its stack or queue that the producers, the consumers and
-- `main` make.
use shm_sync.Prelude.{
  ℕ, ◌+◌, ◌-◌, ◌≤◌, ◌≡◌, Bool, true, false, if◌then◌else◌, List, [], ◌∷◌, arith, refl,
}
use shm_sync.Driver.Calls.{Call, Step, Papi, call, repeat}
use shm_sync.Driver.Calls.Weigh.{weigh}
use shm_sync.Driver.Lock.Threads.{in_calls, no_threads}
use shm_sync.Driver.Pair.{Protocol, Options}
use shm_sync.Driver.Pair
use shm_sync.Driver.Pair.Totals.{IsPair}

pub data Action : Type 0 where
  new_queue : (queue : ℕ) → Action
  sync_producer : (nr_iter queue : ℕ) → Action
  sync_consumer : (nr_iter queue : ℕ) → Action
  delete_queue : (queue : ℕ) → Action

abbrev pub protocol : Protocol Action
protocol = record {
  init = λ n. repeat n (λ i. call (new_queue i) ∷ []);
  produce = λ i t k. sync_producer k i;
  consume = λ i t k. sync_consumer k i;
  runs = λ sc_runs n. n - (if sc_runs then 1 else n) + 1;
  dealt_to = λ sc_runs n tid. if sc_runs then tid - n else tid;
  delete = λ n. repeat n (λ i. call (delete_queue i) ∷ []);
}

abbrev pub f_prod : Papi → (pair tid nr_pairs nr_iter nr_exec : ℕ) → Bool → List (Call Action)
f_prod = Pair.f_prod protocol

abbrev pub f_cons : Papi → (pair tid nr_pairs nr_iter nr_exec : ℕ) → Bool → List (Call Action)
f_cons = Pair.f_cons protocol

abbrev pub main : Papi → Options → List (Step Action)
main = Pair.main protocol

-- The elements that a call puts in.
unfoldable pub pushes : Action → ℕ
pushes (sync_producer k _) = k
pushes _ = 0

-- The elements that a call takes out.
unfoldable pub pops : Action → ℕ
pops (sync_consumer k _) = k
pops _ = 0

pub protocol-IsPair : IsPair protocol pushes pops
unfolding weigh in_calls pushes pops
protocol-IsPair = record {
  starts = λ w n. no_threads (weigh w) n (λ i. call (new_queue i) ∷ []) (λ i. refl);
  ends = λ w n. no_threads (weigh w) n (λ i. call (delete_queue i) ∷ []) (λ i. refl);
  pushed = λ i t k. refl;
  not_pushed = λ i t k. refl;
  popped = λ i t k. refl;
  not_popped = λ i t k. refl;
  rounds = rounds;
}
  where
    rounds : (n : ℕ) (sc_runs : Bool) → 1 ≤ n → protocol.runs sc_runs n ≡ (if sc_runs then n else 1)
    rounds n true h = omega arith
    rounds n false h = omega arith
