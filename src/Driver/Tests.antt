-- ===== src/Driver/Tests.antt =====
-- Benchmarks of the array lock and the CLH lock with three threads.
use shm_sync.Prelude.{◌≡◌, ◌≤◌, true, false, refl, arith}
use shm_sync.Driver.Calls.{Work, Papi, Delay}
use shm_sync.Driver.Calls.Weigh.{weigh}
use shm_sync.Driver.Lock.{Options}
use shm_sync.Driver.Lock.Threads.{in_calls, in_threads, calls_of}
use shm_sync.Driver.Lock.Benchmark.{barrier_waits, iterations, entries, room}
use shm_sync.Driver.Lock.Timed.{timed}
use shm_sync.Driver.Lock.Entries.{waits_equal, nr_iter_performed, entered_once}
use shm_sync.Driver.Lock.Phases.{Phased}
use shm_sync.Driver.ArrayDriver
use shm_sync.Driver.ClhDriver
use shm_sync.Driver.Resets.{array_phase, clh_phase, resets_apart, nodes_apart}

abbrev papi : Papi
papi = record { library_init = true; thread_init = λ _. true }

abbrev options : Options
options = record {
  nr_exec = 2;
  nr_iter = 10;
  nr_threads = 3;
  sc_runs = true;
  ovw_stats = false;
  uin = 100;
  uout = 0;
  help = 0;
  positional = 0;
}

abbrev work : Work
work = record { ui = 100; uo = 0; useful_in = Delay.useful_work_ns; useful_out = Delay.nothing }

waits_equal_example : weigh barrier_waits (calls_of ClhDriver.protocol papi options 1) ≡ 18
waits_equal_example =
    waits_equal ClhDriver.protocol ClhDriver.rounds 3 ClhDriver.protocol-IsBenchmark papi options
      (omega arith) (λ t lt. refl) 1 (omega arith)

nr_iter_performed_example :
    (weigh (in_calls (timed ArrayDriver.rounds 1 2 0)) (ArrayDriver.main papi options) ≡ 10)
    × (weigh (in_threads (iterations ArrayDriver.rounds)) (ArrayDriver.main papi options) ≡ 60)
nr_iter_performed_example =
    nr_iter_performed ArrayDriver.protocol ArrayDriver.rounds 2 ArrayDriver.protocol-IsBenchmark
      papi options (omega arith) (λ t lt. refl) 1 2

entered_once_example :
    (weigh (in_threads (entries 1 0 2)) (ArrayDriver.main papi options) ≡ 1)
    × (weigh (in_threads (entries 1 0 2)) (ArrayDriver.main papi options)
        ≤ weigh (room 1 0 2) (ArrayDriver.main papi options))
entered_once_example =
    entered_once ArrayDriver.protocol ArrayDriver.rounds 2 ArrayDriver.protocol-IsBenchmark papi
      options (omega arith) (λ t lt. refl) 1 0 2

resets_apart_example : Phased array_phase 2 0 (ArrayDriver.thread_f papi 0 3 10 2 true work)
resets_apart_example = resets_apart papi 0 3 10 2 true work

nodes_apart_example : Phased clh_phase 3 0 (ClhDriver.thread_f papi 0 3 10 2 true work)
nodes_apart_example = nodes_apart papi 0 3 10 2 true work
