-- ===== src/Driver/Resets.antt =====
-- When the drivers of the array lock and of the CLH lock prepare an execution.
use shm_sync.Prelude.{ℕ, ◌%◌, ◌≡◌, Bool, not, ◌||◌, leb, ◌==◌, Bool-cases, inl, inr, arith, refl}
use shm_sync.Driver.Calls.{Work, Papi}
use shm_sync.Driver.Calls.Weigh.{weigh}
use shm_sync.Driver.Lock.{execution}
use shm_sync.Driver.Lock.Benchmark.{barrier_waits}
use shm_sync.Driver.Lock.Phases.{InPhase, Phased, Through, thread_f-Phased}
use shm_sync.Driver.ArrayDriver
use shm_sync.Driver.ClhDriver

-- The phases of an execution of the array lock.
unfoldable pub array_phase : ArrayDriver.Action → ℕ
array_phase (ArrayDriver.init_arraylock n) = 1
array_phase _ = 0

array_Through :
    (tid n iter : ℕ) (sc_runs : Bool) (work : Work) (papi : Papi) (run exec k : ℕ)
    → k % 2 ≡ 0
    → Through array_phase 2 k (execution ArrayDriver.protocol papi tid n iter sc_runs work run exec)
unfolding execution Phased InPhase weigh barrier_waits array_phase
array_Through tid n iter sc_runs work papi run exec k h =
    elim (Bool-cases (not sc_runs || leb tid run)) [
      | inl e ↦ elim (Bool-cases (tid == 0)) [
        | inl f ↦ rw e (rw f (ground arith))
        | inr f ↦ rw e (rw f (ground arith))
      ]
      | inr e ↦ elim (Bool-cases (tid == 0)) [
        | inl f ↦ rw e (rw f (ground arith))
        | inr f ↦ rw e (rw f (ground arith))
      ]
    ]

-- In every thread, each `init_arraylock` comes after an odd number of calls of `barrier_wait`, and
-- each `arraylock_sync` after an even number.
pub resets_apart :
    (papi : Papi) (tid nr_threads nr_iter nr_exec : ℕ) (sc_runs : Bool) (work : Work)
    → Phased array_phase 2 0 (ArrayDriver.thread_f papi tid nr_threads nr_iter nr_exec sc_runs work)
resets_apart papi tid n nr_iter nr_exec sc_runs work =
    thread_f-Phased array_phase 2 ArrayDriver.protocol papi
      (λ t m iter sc w run exec k h. array_Through t m iter sc w papi run exec k h) tid n nr_iter
      nr_exec sc_runs work refl

-- The phases of an execution of the CLH lock.
unfoldable pub clh_phase : ClhDriver.Action → ℕ
clh_phase ClhDriver.init_per_exec_global = 1
clh_phase ClhDriver.init_per_exec_per_thread = 1
clh_phase (ClhDriver.clhqueue_sync nr_iter work) = 2
clh_phase _ = 0

clh_Through :
    (tid n iter : ℕ) (sc_runs : Bool) (work : Work) (papi : Papi) (run exec k : ℕ)
    → k % 3 ≡ 0
    → Through clh_phase 3 k (execution ClhDriver.protocol papi tid n iter sc_runs work run exec)
unfolding execution Phased InPhase weigh barrier_waits clh_phase
clh_Through tid n iter sc_runs work papi run exec k h =
    elim (Bool-cases (not sc_runs || leb tid run)) [
      | inl e ↦ elim (Bool-cases (tid == 0)) [
        | inl f ↦ rw e (rw f (ground arith))
        | inr f ↦ rw e (rw f (ground arith))
      ]
      | inr e ↦ elim (Bool-cases (tid == 0)) [
        | inl f ↦ rw e (rw f (ground arith))
        | inr f ↦ rw e (rw f (ground arith))
      ]
    ]

-- In every thread, the numbers of calls of `barrier_wait` before the initialization of an
-- execution, before `clhqueue_sync` and before `delete_per_thread` leave the remainders 1, 2 and 0
-- by 3.
pub nodes_apart :
    (papi : Papi) (tid nr_threads nr_iter nr_exec : ℕ) (sc_runs : Bool) (work : Work)
    → Phased clh_phase 3 0 (ClhDriver.thread_f papi tid nr_threads nr_iter nr_exec sc_runs work)
nodes_apart papi tid n nr_iter nr_exec sc_runs work =
    thread_f-Phased clh_phase 3 ClhDriver.protocol papi
      (λ t m iter sc w run exec k h. clh_Through t m iter sc w papi run exec k h) tid n nr_iter
      nr_exec sc_runs work refl
