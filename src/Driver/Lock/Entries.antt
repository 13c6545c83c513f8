-- ===== src/Driver/Lock/Entries.antt =====
-- What the threads of a benchmark do in total: iterations, samples and calls of the barrier.
use shm_sync.Prelude.{
  ℕ, ◌*◌, ◌≤◌, ◌<◌, ◌≡◌, true, ◌&&◌, ◌==◌, ltb, if◌then◌else◌, sum_below, sum_below-congr,
  sum_below-const, arith, ap, ◌∙◌, Bool-cases, inl, inr,
}
use shm_sync.Driver.Calls.{Papi}
use shm_sync.Driver.Calls.Weigh.{weigh, sum_below-swap, sum_below-mul, sum_below-pick}
use shm_sync.Driver.Lock.{Protocol, Options, iter_per_thread, main}
use shm_sync.Driver.Lock.Threads.{
  nr_runs, parties, participates, share, accepted, work_of, in_calls, in_threads, calls_of,
  weigh-thread_f, weigh-main, each,
}
use shm_sync.Driver.Lock.Benchmark.{barrier_waits, iterations, entries, room, IsBenchmark}
use shm_sync.Driver.Lock.Timed.{timed, timed-thread_f}
use shm_sync.Driver.Lock.Shares.{shares_total}

module _ {A : Type 0} (p : Protocol A) (rounds : A → ℕ) (waits : ℕ) (b : IsBenchmark p rounds waits)
    (papi : Papi) (o : Options) (pos : 1 ≤ o.nr_threads) where
  each-iterations :
      (tid run exec : ℕ)
      → each p papi o (iterations rounds) tid run exec
        ≡ (if participates o run tid then iter_per_thread o.nr_iter (parties o run) tid else 0)
  unfolding iterations weigh
  each-iterations tid run exec = ground (
    arith,
    b.idle_before o.nr_threads tid,
    b.idle_after o.nr_threads tid,
    b.syncs (work_of o) tid o.nr_threads (iter_per_thread o.nr_iter (parties o run) tid),
  )

  each-waits : (tid run exec : ℕ) → each p papi o barrier_waits tid run exec ≡ waits
  unfolding barrier_waits weigh
  each-waits tid run exec = ground (arith, b.meets o.nr_threads tid)

  each-entries :
      (t e r tid run exec : ℕ)
      → each p papi o (entries t e r) tid run exec ≡ (
          if run == r
          then if exec == e then if tid == t then if participates o r t then 1 else 0 else 0 else 0
          else 0)
  unfolding entries weigh
  each-entries t e r tid run exec =
      ground (arith, b.silent_before o.nr_threads tid t e r, b.silent_after o.nr_threads tid t e r)

  module _ (ok : (t : ℕ) → t < o.nr_threads → papi.thread_init t ≡ true) where
    -- Every thread calls `barrier_wait` equally often: `waits` times in each execution of each run.
    pub waits_equal :
        (tid : ℕ)
        → tid < o.nr_threads
        → weigh barrier_waits (calls_of p papi o tid) ≡ nr_runs o * (o.nr_exec * waits)
    waits_equal tid lt =
        weigh-thread_f p papi o barrier_waits tid pos (ok tid lt)
        ∙ sum_below-congr (nr_runs o) _ (λ _. o.nr_exec * waits)
            (λ run _.
              sum_below-congr o.nr_exec _ (λ _. waits) (λ exec _. each-waits tid run exec)
              ∙ sum_below-const o.nr_exec waits)
        ∙ sum_below-const (nr_runs o) (o.nr_exec * waits)

    thread_iterations :
        (tid : ℕ)
        → tid < o.nr_threads
        → weigh (iterations rounds) (calls_of p papi o tid)
          ≡ sum_below (nr_runs o) (λ run. o.nr_exec * share o tid run)
    thread_iterations tid lt =
        weigh-thread_f p papi o (iterations rounds) tid pos (ok tid lt)
        ∙ sum_below-congr (nr_runs o) _ (λ run. o.nr_exec * share o tid run)
            (λ run _.
              sum_below-congr o.nr_exec _ (λ _. share o tid run)
                (λ exec _. each-iterations tid run exec)
              ∙ sum_below-const o.nr_exec (share o tid run))

    in_threads_run : (run : ℕ) → run < nr_runs o → run < o.nr_threads
    in_threads_run run lt = elim (Bool-cases o.sc_runs) [
      | inl e ↦ ground arith
      | inr e ↦ ground arith
    ]

    run_iterations :
        (run : ℕ)
        → run < nr_runs o
        → sum_below o.nr_threads (λ tid. o.nr_exec * share o tid run) ≡ o.nr_exec * o.nr_iter
    run_iterations run lt =
        sum_below-mul o.nr_threads o.nr_exec (λ tid. share o tid run)
        ∙ ap (λ k. o.nr_exec * k)
            (shares_total o.nr_threads o.nr_iter run o.sc_runs (in_threads_run run lt))

    all_iterations :
        weigh (in_threads (iterations rounds)) (main p papi o)
        ≡ (if accepted o papi then nr_runs o * (o.nr_exec * o.nr_iter) else 0)
    all_iterations =
        weigh-main p papi o (weigh (iterations rounds)) (b.starts (weigh (iterations rounds)))
          (b.ends (weigh (iterations rounds)))
        ∙ ap (λ k. if accepted o papi then k else 0)
            (sum_below-congr o.nr_threads _ _ thread_iterations
              ∙ sum_below-swap o.nr_threads (nr_runs o) (λ tid run. o.nr_exec * share o tid run)
              ∙ sum_below-congr (nr_runs o) _ (λ _. o.nr_exec * o.nr_iter) run_iterations
              ∙ sum_below-const (nr_runs o) (o.nr_exec * o.nr_iter))

    -- The threads that take part in a run share the iterations.
    timed_total :
        (e r : ℕ)
        → sum_below o.nr_threads (λ t. timed rounds e r 0 (calls_of p papi o t))
          ≡ (if ltb e o.nr_exec && ltb r (nr_runs o) then o.nr_iter else 0)
    timed_total e r =
        sum_below-congr o.nr_threads _
          (λ t. if ltb e o.nr_exec && ltb r (nr_runs o) then share o t r else 0)
          (λ t lt. timed-thread_f rounds e r p b papi o t pos (ok t lt) ∙ ground arith)
        ∙ elim (Bool-cases (ltb e o.nr_exec && ltb r (nr_runs o))) [
          | inl within ↦
              rw within
                (shares_total o.nr_threads o.nr_iter r o.sc_runs (in_threads_run r (ground arith)))
          | inr beyond ↦ rw beyond (sum_below-const o.nr_threads 0 ∙ omega arith)
        ]

    -- For at least one thread, PAPI initialized in every thread, and a driver that runs its construct
    -- in the timed part of an execution only: if `main` comes as far as creating threads, then the
    -- iterations behind which the samples of an execution of a run are entered are `nr_iter` in
    -- total, for every execution of every run; for any other execution or run there are none, and no
    -- iterations are performed besides these. Otherwise no iterations are performed.
    pub nr_iter_performed :
        (e r : ℕ)
        → (weigh (in_calls (timed rounds e r 0)) (main p papi o)
            ≡ (if accepted o papi && (ltb e o.nr_exec && ltb r (nr_runs o)) then o.nr_iter else 0))
          × (weigh (in_threads (iterations rounds)) (main p papi o)
              ≡ (if accepted o papi then nr_runs o * (o.nr_exec * o.nr_iter) else 0))
    nr_iter_performed e r = (
      weigh-main p papi o (timed rounds e r 0) (b.starts (timed rounds e r 0))
            (b.ends (timed rounds e r 0))
          ∙ ap (λ k. if accepted o papi then k else 0) (timed_total e r)
          ∙ ground arith,
      all_iterations,
    )

    one : (t r : ℕ) → ℕ
    one t r = if participates o r t then 1 else 0

    thread_entries :
        (t e r tid : ℕ)
        → tid < o.nr_threads
        → weigh (entries t e r) (calls_of p papi o tid) ≡ (
            if tid == t
            then if ltb r (nr_runs o) then if ltb e o.nr_exec then one t r else 0 else 0
            else 0)
    unfolding one
    thread_entries t e r tid lt =
        weigh-thread_f p papi o (entries t e r) tid pos (ok tid lt)
        ∙ sum_below-congr (nr_runs o) _ _ (λ run _.
          sum_below-congr o.nr_exec _
            (λ exec.
              if exec == e then if run == r then if tid == t then one t r else 0 else 0 else 0)
            (λ exec _. each-entries t e r tid run exec ∙ ground arith)
          ∙ sum_below-pick o.nr_exec e
              (λ _. if run == r then if tid == t then one t r else 0 else 0)
          ∙ swap_if run)
        ∙ sum_below-pick (nr_runs o) r
            (λ _. if ltb e o.nr_exec then if tid == t then one t r else 0 else 0)
        ∙ ground arith
      where
        swap_if :
            (run : ℕ)
            → (if ltb e o.nr_exec
                then if run == r then if tid == t then one t r else 0 else 0
                else 0)
              ≡ (if run == r
                  then if ltb e o.nr_exec then if tid == t then one t r else 0 else 0
                  else 0)
        swap_if run = ground arith

    -- `main` makes room for the samples.
    room_made :
        (t e r : ℕ)
        → (if accepted o papi
              && (ltb t o.nr_threads && ltb e o.nr_exec && ltb r (nr_runs o))
              && participates o r t
            then 1
            else 0)
          ≤ weigh (room t e r) (main p papi o)
    unfolding main weigh room
    room_made t e r = ground arith

    entries_of_main :
        (t e r : ℕ)
        → weigh (in_threads (entries t e r)) (main p papi o) ≡ (
            if accepted o papi
              && (ltb t o.nr_threads && ltb e o.nr_exec && ltb r (nr_runs o))
              && participates o r t
            then 1
            else 0)
    unfolding one
    entries_of_main t e r =
        weigh-main p papi o (weigh (entries t e r)) (b.starts (weigh (entries t e r)))
          (b.ends (weigh (entries t e r)))
        ∙ ap (λ k. if accepted o papi then k else 0)
            (sum_below-congr o.nr_threads _ _ (thread_entries t e r)
              ∙ sum_below-pick o.nr_threads t
                  (λ _. if ltb r (nr_runs o) then if ltb e o.nr_exec then one t r else 0 else 0))
        ∙ ground arith

    -- For at least one thread, PAPI initialized in every thread, and a driver that enters no samples
    -- of its own: if `main` comes as far as creating threads, every thread enters one sample for each
    -- execution of each run that it takes part in, and no samples are entered besides these. Each of
    -- them lies within the dimensions of a call of `initStats` that `main` makes.
    pub entered_once :
        (t e r : ℕ)
        → (weigh (in_threads (entries t e r)) (main p papi o) ≡ (
            if accepted o papi
              && (ltb t o.nr_threads && ltb e o.nr_exec && ltb r (nr_runs o))
              && participates o r t
            then 1
            else 0))
          × (weigh (in_threads (entries t e r)) (main p papi o)
              ≤ weigh (room t e r) (main p papi o))
    entered_once t e r =
        let made = entries_of_main t e r in (made, omega (arith, made, room_made t e r))
