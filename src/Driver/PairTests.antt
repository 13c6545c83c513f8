-- ===== src/Driver/PairTests.antt =====
-- Two pairs that share three elements.
use shm_sync.Prelude.{◌+◌, ◌≡◌, Bool, true, false, refl, arith, sum_below}
use shm_sync.Driver.Calls.{Papi}
use shm_sync.Driver.Calls.Weigh.{weigh}
use shm_sync.Driver.Lock.Threads.{in_threads}
use shm_sync.Driver.Lock.Benchmark.{iterations}
use shm_sync.Driver.Pair.{Options}
use shm_sync.Driver.Pair.Totals.{all_consumed, some_left}
use shm_sync.Driver.StackDriver
use shm_sync.Driver.MpmcDriver

abbrev papi : Papi
papi = record { library_init = true; thread_init = λ _. true }

abbrev options : Bool → Options
options sc_runs = record {
  nr_exec = 2;
  nr_iter = 3;
  nr_pairs = 2;
  sc_runs = sc_runs;
  ovw_stats = false;
  help = 0;
  positional = 0;
}

all_consumed_example :
    weigh (in_threads (iterations StackDriver.pops)) (StackDriver.main papi (options true))
    ≡ weigh (in_threads (iterations StackDriver.pushes)) (StackDriver.main papi (options true))
all_consumed_example =
    all_consumed StackDriver.protocol StackDriver.pushes StackDriver.pops
      StackDriver.protocol-IsPair papi (options true) (omega arith) (λ t lt. refl)
      (λ t. omega arith)

-- One element is left in each of the two executions.
some_left_example :
    weigh (in_threads (iterations MpmcDriver.pops)) (MpmcDriver.main papi (options false)) + 2
    ≡ weigh (in_threads (iterations MpmcDriver.pushes)) (MpmcDriver.main papi (options false))
unfolding sum_below
some_left_example =
    some_left MpmcDriver.protocol MpmcDriver.pushes MpmcDriver.pops MpmcDriver.protocol-IsPair papi
      (options false) (omega arith) (λ t lt. refl) (λ t. refl) refl
