-- ===== src/Driver/Lock/Threads.antt =====
-- A weight summed over the calls of a thread, and over those of all threads that `main` creates.
use shm_sync.Prelude.{
  ℕ, ◌+◌, ◌-◌, ◌≤◌, ◌≡◌, Bool, true, not, ◌&&◌, ◌||◌, ltb, leb, if◌then◌else◌, List, [], ◌∷◌, ◌++◌,
  sum_below, sum_below-congr, sum_below-const, arith, refl, ap, ◌∙◌, Bool-cases, inl, inr,
}
use shm_sync.Driver.Calls.{
  Delay, decision, Work, Call, Step, get_real_nsec, enter_sample, call, create, join, dump_data,
  return_0, barrier_init, init_stats, Papi, repeat, when,
}
use shm_sync.Driver.Calls.Weigh.{weigh, weigh-append, weigh-repeat, weigh-when}
use shm_sync.Driver.Lock.{
  Protocol, Options, max_alloc_nr_threads, iter_per_thread, execution, thread_f, main,
}

-- The runs of a benchmark, and the threads that share the iterations of one.
abbrev pub nr_runs : Options → ℕ
nr_runs o = if o.sc_runs then o.nr_threads else 1

abbrev pub parties : Options → ℕ → ℕ
parties o run = if o.sc_runs then run + 1 else o.nr_threads

abbrev pub participates : Options → ℕ → ℕ → Bool
participates o run tid = not o.sc_runs || leb tid run

-- The iterations of a thread in an execution of the run.
abbrev pub share : Options → (tid run : ℕ) → ℕ
share o tid run =
    if participates o run tid then iter_per_thread o.nr_iter (parties o run) tid else 0

-- Whether `main` comes as far as creating threads.
abbrev pub accepted : Options → Papi → Bool
accepted o papi =
    not (ltb 0 o.help || ltb 0 o.positional)
    && not (ltb max_alloc_nr_threads o.nr_threads)
    && papi.library_init

abbrev pub work_of : Options → Work
work_of o = record {
  ui = o.uin;
  uo = o.uout;
  useful_in = decision Delay.useful_work_ns o.uin;
  useful_out = decision Delay.useful_work_ns o.uout;
}

module _ {A : Type 0} where
  -- What is counted of the calls of the thread that a step of `main` creates.
  unfoldable pub in_calls : (List (Call A) → ℕ) → Step A → ℕ
  in_calls f (create tid calls) = f calls
  in_calls f _ = 0

  abbrev pub in_threads : (Call A → ℕ) → Step A → ℕ
  in_threads w = in_calls (weigh w)

  pub no_threads :
      (f : List (Call A) → ℕ) (n : ℕ) (body : ℕ → List (Step A))
      → ((i : ℕ) → weigh (in_calls f) (body i) ≡ 0)
      → weigh (in_calls f) (repeat n body) ≡ 0
  no_threads f n body quiet =
      weigh-repeat (in_calls f) n body
      ∙ sum_below-congr n _ (λ _. 0) (λ i lt. quiet i)
      ∙ sum_below-const n 0
      ∙ omega arith

  -- The calls of thread `tid` in the benchmark that `o` asks for.
  abbrev pub calls_of : Protocol A → Papi → Options → ℕ → List (Call A)
  calls_of p papi o tid = thread_f p papi tid o.nr_threads o.nr_iter o.nr_exec o.sc_runs (work_of o)

  module _ (p : Protocol A) (papi : Papi) (o : Options) (w : Call A → ℕ) where
    -- The timed part of an execution.
    abbrev pub timed_calls : (tid run exec : ℕ) → List (Call A)
    timed_calls tid run exec =
        get_real_nsec
        ∷ call (p.sync (work_of o) tid o.nr_threads (iter_per_thread o.nr_iter (parties o run) tid))
        ∷ get_real_nsec
        ∷ enter_sample tid exec run
        ∷ []

    abbrev pub timed : (tid run exec : ℕ) → ℕ
    timed tid run exec = weigh w (timed_calls tid run exec)

    abbrev pub each : (tid run exec : ℕ) → ℕ
    each tid run exec =
        weigh w (p.before o.nr_threads tid)
        + ((if participates o run tid then timed tid run exec else 0)
            + weigh w (p.after o.nr_threads tid))

    weigh-execution :
        (tid run exec : ℕ)
        → weigh w (
            execution p papi tid o.nr_threads
              (iter_per_thread o.nr_iter (parties o run) tid)
              o.sc_runs
              (work_of o)
              run
              exec)
          ≡ each tid run exec
    unfolding execution
    weigh-execution tid run exec =
        let timed_part = when (participates o run tid) (timed_calls tid run exec) in
        weigh-append w (p.before o.nr_threads tid ++ timed_part) (p.after o.nr_threads tid)
        ∙ omega (
          arith,
          weigh-append w (p.before o.nr_threads tid) timed_part,
          weigh-when w (participates o run tid) (timed_calls tid run exec),
        )

    pub runs :
        1 ≤ o.nr_threads → o.nr_threads - (if o.sc_runs then 1 else o.nr_threads) + 1 ≡ nr_runs o
    runs pos = elim (Bool-cases o.sc_runs) [ inl e ↦ ground arith | inr e ↦ ground arith ]

    pub weigh-thread_f :
        (tid : ℕ)
        → 1 ≤ o.nr_threads
        → papi.thread_init tid ≡ true
        → weigh w (calls_of p papi o tid)
          ≡ sum_below (nr_runs o) (λ run. sum_below o.nr_exec (each tid run))
    unfolding thread_f
    weigh-thread_f tid pos ok = rw ok (
        weigh-repeat w _ _
        ∙ sum_below-congr _ _ _ (λ run lt.
          weigh-repeat w o.nr_exec _
          ∙ sum_below-congr o.nr_exec _ _ (λ exec lt'. weigh-execution tid run exec))
        ∙ ap (λ r. sum_below r (λ run. sum_below o.nr_exec (each tid run))) (runs pos))

  module _ (p : Protocol A) (papi : Papi) (o : Options) (f : List (Call A) → ℕ) where
    join_free : (n : ℕ) → weigh (in_calls f) (repeat n (λ tid. join tid ∷ [])) ≡ 0
    unfolding in_calls weigh
    join_free n = no_threads f n (λ tid. join tid ∷ []) (λ i. refl)

    created :
        (n : ℕ) (calls : ℕ → List (Call A))
        → weigh (in_calls f) (repeat n (λ tid. create tid (calls tid) ∷ []))
          ≡ sum_below n (λ t. f (calls t))
    unfolding in_calls weigh
    created n calls = weigh-repeat (in_calls f) n _ ∙ sum_below-congr n _ _ (λ i lt. omega arith)

    -- The steps after the initialization of the driver's construct.
    weigh-steps :
        (start spawn wait end : List (Step A)) (n e r : ℕ) (b : Bool)
        → weigh (in_calls f) start ≡ 0
        → weigh (in_calls f) wait ≡ 0
        → weigh (in_calls f) end ≡ 0
        → weigh (in_calls f) (
            barrier_init n
            ∷ init_stats n e r
            ∷ (start ++ spawn ++ wait ++ dump_data b ∷ (end ++ return_0 ∷ [])))
          ≡ weigh (in_calls f) spawn
    unfolding in_calls weigh
    weigh-steps start spawn wait end n e r b qi qj qd =
        let rest = dump_data b ∷ (end ++ return_0 ∷ []) in
        omega (
          arith,
          weigh-append (in_calls f) (start ++ spawn ++ wait) rest,
          weigh-append (in_calls f) (start ++ spawn) wait,
          weigh-append (in_calls f) start spawn,
          weigh-append (in_calls f) end (return_0 ∷ []),
        )

    pub weigh-main :
        ((n : ℕ) → weigh (in_calls f) (p.init n) ≡ 0)
        → weigh (in_calls f) p.delete ≡ 0
        → weigh (in_calls f) (main p papi o)
          ≡ (if accepted o papi then sum_below o.nr_threads (λ t. f (calls_of p papi o t)) else 0)
    unfolding main in_calls weigh
    weigh-main quiet quiet' = elim (Bool-cases (ltb 0 o.help || ltb 0 o.positional)) [
      | inl e ↦ rw e refl
      | inr e ↦ elim (Bool-cases (ltb max_alloc_nr_threads o.nr_threads)) [
        | inl f ↦ rw e (rw f refl)
        | inr f ↦ elim (Bool-cases papi.library_init) [
          | inl g ↦ rw e (
              rw f (
                rw g (
                  weigh-steps (p.init o.nr_threads) _ (repeat o.nr_threads (λ tid. join tid ∷ []))
                    p.delete o.nr_threads o.nr_exec (nr_runs o) o.ovw_stats (quiet o.nr_threads)
                    (join_free o.nr_threads) quiet'
                  ∙ created o.nr_threads _)))
          | inr g ↦ rw e (rw f (rw g refl))
        ]
      ]
    ]
