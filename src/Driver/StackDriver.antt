-- ===== src/Driver/StackDriver.antt =====
-- benchmark/nonblocking/COstack/driver.cpp: the calls of its stack or queue that the producers, the consumers and
-- `main` make.
use shm_sync.Prelude.{ℕ, ◌-◌, Bool, if◌then◌else◌, List, [], refl}
use shm_sync.Driver.Calls.{Call, Step, Papi}
use shm_sync.Driver.Calls.Weigh.{weigh}
use shm_sync.Driver.Lock.Threads.{in_calls}
use shm_sync.Driver.Pair.{Protocol, Options}
use shm_sync.Driver.Pair
use shm_sync.Driver.Pair.Totals.{IsPair}

pub data Action : Type 0 where
  sync_producer : (nr_iter : ℕ) → Action
  sync_consumer : (nr_iter tid : ℕ) → Action

abbrev pub protocol : Protocol Action
protocol = record {
  init = λ n. [];
  produce = λ i t k. sync_producer k;
  consume = λ i t k. sync_consumer k t;
  runs = λ sc_runs n. if sc_runs then n else 1;
  dealt_to = λ sc_runs n tid. tid - n;
  delete = λ n. [];
}

abbrev pub f_prod : Papi → (pair tid nr_pairs nr_iter nr_exec : ℕ) → Bool → List (Call Action)
f_prod = Pair.f_prod protocol

abbrev pub f_cons : Papi → (pair tid nr_pairs nr_iter nr_exec : ℕ) → Bool → List (Call Action)
f_cons = Pair.f_cons protocol

abbrev pub main : Papi → Options → List (Step Action)
main = Pair.main protocol

-- The elements that a call puts in.
unfoldable pub pushes : Action → ℕ
pushes (sync_producer k) = k
pushes _ = 0

-- The elements that a call takes out.
unfoldable pub pops : Action → ℕ
pops (sync_consumer k _) = k
pops _ = 0

pub protocol-IsPair : IsPair protocol pushes pops
unfolding weigh in_calls pushes pops
protocol-IsPair = record {
  starts = λ w n. refl;
  ends = λ w n. refl;
  pushed = λ i t k. refl;
  not_pushed = λ i t k. refl;
  popped = λ i t k. refl;
  not_popped = λ i t k. refl;
  rounds = λ n sc_runs h. refl;
}
