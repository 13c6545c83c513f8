-- ===== src/Driver/Lock/Timed.antt =====
-- The iterations that the threads of a benchmark perform for each sample that they enter.
use shm_sync.Prelude.{
  ℕ, zero, suc, ◌+◌, ◌≤◌, ◌≡◌, ◌==◌, true, ltb, if◌then◌else◌, List, [], ◌∷◌, ◌++◌, sum_below,
  sum_below-congr, arith, refl, sym, ap, ◌∙◌, Bool-cases, inl, inr,
}
use mathlib.Core.List.{append-nil, append_assoc}
use shm_sync.Driver.Calls.{
  Papi, Call, exit_failure, barrier_wait, get_real_nsec, call, enter_sample, repeat, when,
}
use shm_sync.Driver.Calls.Weigh.{weigh, sum_below-pick}
use shm_sync.Driver.Lock.{Protocol, Options, iter_per_thread, execution, thread_f}
use shm_sync.Driver.Lock.Threads.{
  nr_runs, share, parties, participates, work_of, timed_calls, calls_of, runs,
}
use shm_sync.Driver.Lock.Benchmark.{iterations, entries, IsBenchmark}

module _ {A : Type 0} (rounds : A → ℕ) (e r : ℕ) where
  -- The iterations behind which the samples of execution `e` of run `r` are entered: those since the
  -- sample before, of which `k` so far.
  unfoldable pub timed : ℕ → List (Call A) → ℕ
  timed k [] = 0
  timed k (call a ∷ xs) = timed (k + rounds a) xs
  timed k (enter_sample t exec run ∷ xs) =
      (if run == r then if exec == e then k else 0 else 0) + timed 0 xs
  timed k (exit_failure ∷ xs) = timed k xs
  timed k (barrier_wait ∷ xs) = timed k xs
  timed k (get_real_nsec ∷ xs) = timed k xs

  -- Calls that perform no iterations and enter no samples.
  timed-idle :
      (xs ys : List (Call A)) (k : ℕ)
      → weigh (iterations rounds) xs ≡ 0
      → ((t x u : ℕ) → weigh (entries t x u) xs ≡ 0)
      → timed k (xs ++ ys) ≡ timed k ys
  unfolding timed weigh iterations entries
  timed-idle [] ys k idle silent = refl
  timed-idle (call a ∷ xs) ys k idle silent =
      ap (λ n. timed n (xs ++ ys)) {x = k + rounds a} {y = k} (omega arith)
      ∙ timed-idle xs ys k (omega arith) (λ t x u. omega (arith, silent t x u))
  timed-idle (enter_sample t x u ∷ xs) ys k idle silent = absurd (ground (arith, silent t x u))
  timed-idle (exit_failure ∷ xs) ys k idle silent =
      timed-idle xs ys k (omega arith) (λ t x u. omega (arith, silent t x u))
  timed-idle (barrier_wait ∷ xs) ys k idle silent =
      timed-idle xs ys k (omega arith) (λ t x u. omega (arith, silent t x u))
  timed-idle (get_real_nsec ∷ xs) ys k idle silent =
      timed-idle xs ys k (omega arith) (λ t x u. omega (arith, silent t x u))

  timed-repeat :
      (n : ℕ) (body : ℕ → List (Call A)) (g : ℕ → ℕ)
      → ((i : ℕ) (ys : List (Call A)) → timed 0 (body i ++ ys) ≡ g i + timed 0 ys)
      → (ys : List (Call A)) → timed 0 (repeat n body ++ ys) ≡ sum_below n g + timed 0 ys
  unfolding repeat sum_below
  timed-repeat zero body g h ys = omega arith
  timed-repeat (suc n) body g h ys =
      ap (timed 0) (append_assoc (repeat n body) (body n) ys)
      ∙ timed-repeat n body g h (body n ++ ys)
      ∙ omega (arith, h n ys)

  module _ (p : Protocol A) {waits : ℕ} (b : IsBenchmark p rounds waits) (papi : Papi)
      (o : Options) where
    picked : (tid run exec : ℕ) → ℕ
    picked tid run exec = if run == r then if exec == e then share o tid run else 0 else 0

    timed-execution :
        (tid run exec : ℕ) (ys : List (Call A))
        → let iter = iter_per_thread o.nr_iter (parties o run) tid in
          timed 0 (execution p papi tid o.nr_threads iter o.sc_runs (work_of o) run exec ++ ys)
          ≡ picked tid run exec + timed 0 ys
    unfolding execution picked timed
    timed-execution tid run exec ys =
        ap (timed 0) (append_assoc (before ++ part) after ys)
        ∙ ap (timed 0) (append_assoc before part (after ++ ys))
        ∙ timed-idle before (part ++ (after ++ ys)) 0 (b.idle_before o.nr_threads tid)
            (λ t x u. b.silent_before o.nr_threads tid t x u)
        ∙ timed_part
      where
        before : List (Call A)
        before = p.before o.nr_threads tid

        after : List (Call A)
        after = p.after o.nr_threads tid

        part : List (Call A)
        part = when (participates o run tid) (timed_calls p papi o (λ c. 0) tid run exec)

        rest_idle : timed 0 (after ++ ys) ≡ timed 0 ys
        rest_idle =
            timed-idle after ys 0 (b.idle_after o.nr_threads tid)
              (λ t x u. b.silent_after o.nr_threads tid t x u)

        timed_part : timed 0 (part ++ (after ++ ys)) ≡ picked tid run exec + timed 0 ys
        timed_part = elim (Bool-cases (participates o run tid)) [
          | inl in_run ↦ rw in_run (
              ground (
                arith,
                rest_idle,
                b.syncs (work_of o) tid o.nr_threads
                    (iter_per_thread o.nr_iter (parties o run) tid),
              ))
          | inr out ↦ rw out (ground (arith, rest_idle))
        ]

    -- What a thread performs for its sample of the execution.
    pub timed-thread_f :
        (tid : ℕ)
        → 1 ≤ o.nr_threads
        → papi.thread_init tid ≡ true
        → timed 0 (calls_of p papi o tid)
          ≡ (if ltb r (nr_runs o) then if ltb e o.nr_exec then share o tid r else 0 else 0)
    unfolding thread_f picked timed
    timed-thread_f tid pos ok = rw ok (
        ap (timed 0) (sym (append-nil (repeat _ (λ run. repeat o.nr_exec _))))
        ∙ timed-repeat _ _ (λ run. sum_below o.nr_exec (picked tid run))
            (λ run. timed-repeat o.nr_exec _ (picked tid run) (timed-execution tid run)) []
        ∙ timed-nil _
        ∙ ap (λ n. sum_below n (λ run. sum_below o.nr_exec (picked tid run)))
            (runs p papi o (λ c. 0) pos)
        ∙ sum_below-congr (nr_runs o) _ _ (λ run lt.
          sum_below-congr o.nr_exec _
            (λ exec. if exec == e then if run == r then share o tid run else 0 else 0)
            (λ exec _. ground arith)
          ∙ sum_below-pick o.nr_exec e (λ _. if run == r then share o tid run else 0)
          ∙ swap_if run)
        ∙ sum_below-pick (nr_runs o) r (λ run. if ltb e o.nr_exec then share o tid run else 0))
      where
        timed-nil : (n : ℕ) → n + timed 0 [] ≡ n
        timed-nil n = omega arith

        swap_if :
            (run : ℕ)
            → (if ltb e o.nr_exec then if run == r then share o tid run else 0 else 0)
              ≡ (if run == r then if ltb e o.nr_exec then share o tid run else 0 else 0)
        swap_if run = ground arith
