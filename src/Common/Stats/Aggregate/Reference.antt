-- ===== src/Common/Stats/Aggregate/Reference.antt =====
-- What `aggregateStatistics` computes, said without its buffer: each execution's result is that of
-- the samples that the threads of the run entered for it.
use shm_sync.Prelude.{
  ℕ, zero, suc, ◌+◌, ◌-◌, ◌≤◌, ◌<◌, ◌≡◌, ◌==◌, false, refl, ap, ◌∙◌, lt→ltb, if◌then◌else◌, some,
  List, map, drop, tabulate, tabulate-congr, take-eq-tabulate, get_or, get_or-drop, length, arith,
}
use shm_sync.Common.Collector.{Collector, get_samples, get_nr_samples}
use shm_sync.Common.Collector.Laws.{get_samples_lem}
use shm_sync.Common.Collector.Laws as CollectorLaws
use shm_sync.Common.Stats.Samples.{Stats, exec_offset}
use shm_sync.Common.Stats.Samples.Layout.{IsValid, cell, exec_offset-eq-cell}
use shm_sync.Common.Stats.Summary.{Floats, Result, do_stats}
use shm_sync.Common.Stats.Aggregate.{
  new_result, exec_result, execs_from, overall, runs_from, aggregate_statistics,
}

-- How many threads of the range take part in a run.
abbrev pub participants : Collector → ℕ → ℕ
participants c run = if c.is_scaling then run + 1 else c.stop_index - c.start_index

-- The samples of an execution, thread by thread.
abbrev pub samples_of : Stats → Collector → ℕ → ℕ → List ℕ
samples_of st c run exec =
    tabulate 0 (participants c run) (λ k. get_or st.sample (cell st (c.start_index + k) exec run) 0)

module _ (F : Floats) (st : Stats) (c : Collector) where
  abbrev pub reference_run : ℕ → List (Result F.Double)
  reference_run run =
      tabulate 0 st.nr_executions (λ exec. do_stats F (samples_of st c run exec) (new_result F))

  -- All collectors of the loops have the range of the first one.
  record SameRange (d : Collector) : Type 0 where
    valid : CollectorLaws.IsValid d
    start : d.start_index ≡ c.start_index
    stop : d.stop_index ≡ c.stop_index
    scaling : d.is_scaling ≡ c.is_scaling

  participants-same :
      (d : Collector) (run : ℕ) → SameRange d → participants d run ≡ participants c run
  participants-same d run same = ground arith

  kept-SameRange :
      (d d' : Collector)
      → CollectorLaws.IsValid d'
      → d' ≡ record d { sample = d'.sample }
      → SameRange d
      → SameRange d'
  kept-SameRange d d' valid keeps same = record {
    valid = valid;
    start = ap (λ x. x.start_index) keeps ∙ same.start;
    stop = ap (λ x. x.stop_index) keeps ∙ same.stop;
    scaling = ap (λ x. x.is_scaling) keeps ∙ same.scaling;
  }

  module _ (v : IsValid st) (population : c.stop_index ≤ st.nr_threads) where
    -- A buffer that begins with the samples of a run's threads gives the execution's result.
    exec_result-eq :
        (samples : List ℕ) (start n run exec : ℕ)
        → start ≡ c.start_index
        → n ≡ participants c run
        → 0 < n
        → c.start_index + n ≤ c.stop_index
        → n ≤ length samples
        → run < st.nr_runs
        → exec < st.nr_executions
        → ((k : ℕ)
            → k < n
            → get_or samples k 0 ≡ get_or (drop (exec_offset st run exec) st.sample) (start + k) 0)
        → exec_result F n samples ≡ do_stats F (samples_of st c run exec) (new_result F)
    exec_result-eq samples start n run exec same number pos within room in_runs in_execs copied =
        rw (lt→ltb 0 n pos) (
          ap (λ xs. do_stats F xs (new_result F))
            (take-eq-tabulate n samples 0 room
              ∙ tabulate-congr 0 n _ _ (λ k low high. found k (omega arith))
              ∙ ap
                  (λ m.
                    tabulate 0 m (λ k. get_or st.sample (cell st (c.start_index + k) exec run) 0))
                  number))
      where
        place :
            (k : ℕ)
            → k < n
            → exec_offset st run exec + (start + k) ≡ cell st (c.start_index + k) exec run
        place k h =
            ap (λ s. exec_offset st run exec + (s + k)) same
            ∙ exec_offset-eq-cell v
                (record { thread = omega arith; execution = in_execs; scaling = in_runs })

        found :
            (k : ℕ)
            → k < n
            → get_or samples k 0 ≡ get_or st.sample (cell st (c.start_index + k) exec run) 0
        found k h =
            copied k h
            ∙ get_or-drop st.sample (exec_offset st run exec) (start + k) 0
            ∙ ap (λ i. get_or st.sample i 0) (place k h)

    -- One execution.
    exec_step :
        (d : Collector) (run exec : ℕ)
        → SameRange d
        → run < c.stop_index - c.start_index
        → run < st.nr_runs
        → exec < st.nr_executions
        → (d' : Collector) × (n : ℕ) × (get_samples d run (drop (exec_offset st run exec) st.sample)
            ≡ some d')
          × (get_nr_samples d' run ≡ some n)
          × SameRange d'
          × (exec_result F n d'.sample ≡ do_stats F (samples_of st c run exec) (new_result F))
    exec_step d run exec same in_range in_runs in_execs =
        conclude (get_samples_lem same.valid run below (drop (exec_offset st run exec) st.sample))
      where
        below : run < d.nr_samples
        below = omega (arith, same.valid.counted, same.start, same.stop)

        conclude :
            ((d' : Collector) × (n : ℕ) × (get_samples d run
                  (drop (exec_offset st run exec) st.sample)
                ≡ some d')
              × (get_nr_samples d' run ≡ some n)
              × (n ≡ participants d run)
              × (d.start_index + n ≤ d.stop_index)
              × ((k : ℕ)
                  → k < n
                  → get_or d'.sample k 0
                    ≡ get_or (drop (exec_offset st run exec) st.sample) (d.start_index + k) 0)
              × CollectorLaws.IsValid d'
              × (d' ≡ record d { sample = d'.sample }))
            → (d' : Collector) × (n : ℕ) × (get_samples d run
                  (drop (exec_offset st run exec) st.sample)
                ≡ some d')
              × (get_nr_samples d' run ≡ some n)
              × SameRange d'
              × (exec_result F n d'.sample ≡ do_stats F (samples_of st c run exec) (new_result F))
        conclude (d', n, got, counted, amount, within, copied, valid, keeps) =
            let same' = kept-SameRange d d' valid keeps same in
            (
              d',
              n,
              got,
              counted,
              same',
              exec_result-eq d'.sample d.start_index n run exec same.start
                  (amount ∙ participants-same d run same) (ground arith) (omega arith)
                  (omega (arith, valid, same'.start, same'.stop, same.start, same.stop, within))
                  in_runs in_execs copied,
            )

    ref_exec : ℕ → ℕ → Result F.Double
    ref_exec run exec = do_stats F (samples_of st c run exec) (new_result F)

    execs_from-eq :
        (run todo exec : ℕ) (d : Collector)
        → SameRange d
        → run < c.stop_index - c.start_index
        → run < st.nr_runs
        → exec + todo ≤ st.nr_executions
        → (d' : Collector) × SameRange d'
          × (execs_from F st run todo exec d ≡ some (tabulate exec todo (ref_exec run), d'))
    unfolding execs_from ref_exec
    execs_from-eq run zero exec d same in_range in_runs room = (d, same, refl)
    execs_from-eq run (suc todo) exec d same in_range in_runs room =
        let (d', n, got, counted, same', res) =
          exec_step d run exec same in_range in_runs (omega arith) in
        let (d'', same'', rest) =
          execs_from-eq run todo (suc exec) d' same' in_range in_runs (omega arith) in
        (d'', same'', rw (got, counted, rest, res))

    runs_from-eq :
        (todo run : ℕ) (d : Collector)
        → SameRange d
        → 0 < st.nr_executions
        → run + todo ≤ c.stop_index - c.start_index
        → run + todo ≤ st.nr_runs
        → (d' : Collector) × (runs_from F st todo run d
            ≡ some (
              tabulate run todo reference_run,
              map (overall F) (tabulate run todo reference_run),
              d',
            ))
    unfolding runs_from ref_exec
    runs_from-eq zero run d same pos in_range in_runs = (d, refl)
    runs_from-eq (suc todo) run d same pos in_range in_runs =
        let (d', same', res) =
          execs_from-eq run st.nr_executions 0 d same (omega arith) (omega arith) (omega arith) in
        let (d'', rest) = runs_from-eq todo (suc run) d' same' pos (omega arith) (omega arith) in
        (d'', rw (res, rest, nonzero))
      where
        nonzero : (st.nr_executions == 0) ≡ false
        nonzero = ground arith

    -- If the counts fit, the collector's range lies within the threads and has a thread for each run,
    -- then `aggregateStatistics` fails no assertion and computes the results of the reference:
    -- `doStats` of the samples of each execution, and of the longest times of each run.
    pub aggregate_statistics-eq :
        CollectorLaws.IsValid c
        → 0 < st.nr_executions
        → st.nr_runs ≤ c.stop_index - c.start_index
        → (c' : Collector) × (aggregate_statistics F st c
            ≡ some (
              tabulate 0 st.nr_runs reference_run,
              map (overall F) (tabulate 0 st.nr_runs reference_run),
              c',
            ))
    unfolding aggregate_statistics
    aggregate_statistics-eq valid pos fits =
        runs_from-eq st.nr_runs 0 c
          (record { valid = valid; start = refl; stop = refl; scaling = refl }) pos (omega arith)
          (omega arith)
