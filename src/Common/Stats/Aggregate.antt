-- ===== src/Common/Stats/Aggregate.antt =====
-- common/stats/stats.cpp: `aggregateStatistics`, the results of every execution and every run.
pub mod Reference
use shm_sync.Prelude.{
  ℕ, zero, suc, ◌==◌, ltb, if◌then◌else◌, Option, none, some, List, [], ◌∷◌, map, take, drop, ◌>>=◌,
}
use shm_sync.Common.Collector.{Collector, get_samples, get_nr_samples}
use shm_sync.Common.Stats.Samples.{Stats, exec_offset}
use shm_sync.Common.Stats.Summary.{Floats, Result, do_stats, median_of}

module _ (F : Floats) where
  -- `new result_t()`.
  abbrev pub new_result : Result F.Double
  new_result = record { max = 0; mean = 0; stdev = 0; cv = F.zero_double; median = 0 }

  -- The result of an execution; a run with no samples gets an empty one.
  abbrev pub exec_result : ℕ → List ℕ → Result F.Double
  exec_result nr_samples samples =
      if ltb 0 nr_samples then do_stats F (take nr_samples samples) new_result else new_result

  -- The loop over the executions of a run, `todo` of them to go. `none` is a failed assertion.
  pub execs_from : Stats → ℕ → ℕ → ℕ → Collector → Option (List (Result F.Double) × Collector)
  execs_from st run zero exec collector = some ([], collector)
  execs_from st run (suc todo) exec collector = do
    filled ← get_samples collector run (drop (exec_offset st run exec) st.sample)
    nr_samples ← get_nr_samples filled run
    (rest, last) ← execs_from st run todo (suc exec) filled
    some (exec_result nr_samples filled.sample ∷ rest, last)

  -- The result over all executions of a run.
  abbrev pub overall : List (Result F.Double) → Result F.Double
  overall v =
      let all_max = map (λ r. r.max) v in
      record (do_stats F all_max new_result) { median = median_of F all_max }

  -- The loop over the runs: `res_exec` and `res_run`. `none` also where there is no execution, since
  -- `doStats` then divides by zero.
  pub runs_from :
      Stats
      → ℕ
      → ℕ
      → Collector
      → Option (List (List (Result F.Double)) × List (Result F.Double) × Collector)
  runs_from st zero run collector = some ([], [], collector)
  runs_from st (suc todo) run collector = do
    (v, filled) ← execs_from st run st.nr_executions 0 collector
    (res_exec, res_run, last) ← runs_from st todo (suc run) filled
    if st.nr_executions == 0 then none else some (v ∷ res_exec, overall v ∷ res_run, last)

  unfoldable pub aggregate_statistics :
      Stats
      → Collector
      → Option (List (List (Result F.Double)) × List (Result F.Double) × Collector)
  unfolding runs_from execs_from
  aggregate_statistics st collector = runs_from st st.nr_runs 0 collector
