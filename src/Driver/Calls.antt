-- ===== src/Driver/Calls.antt =====
-- The calls that a benchmark's threads and its `main` make, and the loops that make them.
pub mod Weigh
use shm_sync.Prelude.{ℕ, zero, suc, Bool, ltb, if◌then◌else◌, List, [], ◌++◌}

-- What `Decision` picks: the delay loop of common/timer, or the lambda that does nothing.
pub data Delay : Type 0 where
  useful_work_ns nothing : Delay

unfoldable pub decision : Delay → ℕ → Delay
decision delay sec = if ltb 0 sec then delay else nothing

-- The arguments of a thread function that its synchronization construct gets.
pub record Work : Type 0 where
  pub ui : ℕ
  pub uo : ℕ
  pub useful_in : Delay
  pub useful_out : Delay

-- The calls of a thread function. The calls of the driver's own construct are `A`; the value that
-- `enter_sample` gets is the difference of the two clock readings around it.
pub data Call (A : Type 0) : Type 0 where
  exit_failure barrier_wait get_real_nsec : Call A
  call : A → Call A
  enter_sample : (tid exec run : ℕ) → Call A

-- The calls of `main`. A created thread comes with the calls that it makes.
pub data Step (A : Type 0) : Type 0 where
  exit_failure return_0 calibrate_delay : Step A
  barrier_init : (nr_threads : ℕ) → Step A
  init_stats : (nr_threads nr_executions nr_runs : ℕ) → Step A
  call : A → Step A
  create : (tid : ℕ) → List (Call A) → Step A
  join : (tid : ℕ) → Step A
  dump_data : (overview_only : Bool) → Step A
  dump_range : (overview_only : Bool) (start stop : ℕ) → Step A
  delete_samples : Step A

-- What PAPI answers: whether `PAPI_library_init` gives its version, and whether
-- `PAPI_thread_init` succeeds in each thread.
pub record Papi : Type 0 where
  pub library_init : Bool
  pub thread_init : ℕ → Bool

-- `for (i = 0; i < n; i++)`, for the calls of the body.
unfoldable pub repeat {ℓ} : {A : Type ℓ} → ℕ → (ℕ → List A) → List A
repeat zero body = []
repeat (suc n) body = repeat n body ++ body n

abbrev pub when {ℓ} : {A : Type ℓ} → Bool → List A → List A
when b calls = if b then calls else []
