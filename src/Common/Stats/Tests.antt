-- ===== src/Common/Stats/Tests.antt =====
-- Two threads, one execution, two scaling runs.
use shm_sync.Prelude.{
  ℕ, ◌+◌, ◌-◌, ◌*◌, ◌/◌, ◌≤◌, ◌<◌, ◌≡◌, ◌≢◌, ◌⊎◌, true, Option, some, List, [], ◌∷◌, map, length,
  leb, get_or, replicate, tabulate, refl, arith,
}
use shm_sync.Common.Collector.{Collector}
use shm_sync.Common.Collector.Laws as CollectorLaws
use shm_sync.Common.Stats.Samples.{Stats, s_index, enter_sample, exec_offset}
use shm_sync.Common.Stats.Samples.Layout.{IsValid, InRange, enter_sample_lem}
use shm_sync.Common.Stats.Summary.{Floats, do_stats, median_of}
use shm_sync.Common.Stats.Summary.Bounds.{sum, Occurs, AllLe, do_stats_bounds}
use shm_sync.Common.Stats.Summary.Median.{IsExact, count, median_of_halves}
use shm_sync.Common.Stats.Aggregate.{new_result, overall, aggregate_statistics}
use shm_sync.Common.Stats.Aggregate.Reference.{reference_run, aggregate_statistics-eq}

-- Whole numbers for doubles; the square root of a whole number by trial from below.
abbrev root_from : ℕ → ℕ → ℕ → ℕ
root_from fuel x r =
    elim fuel as (λ _. ℕ → ℕ) [
      | Prim.Native.Nat.zero ↦ λ k. k
      | Prim.Native.Nat.suc (f → more) ↦
          λ k. elim (leb ((k + 1) * (k + 1)) x) [ true ↦ more (k + 1) | _ ↦ k ]
    ]
      r

abbrev pub whole : Floats
whole = record {
  Double = ℕ;
  zero_double = 0;
  from_long = λ k. k;
  difference = λ x m. (x - m) + (m - x);
  plus = λ a b. a + b;
  times = λ a b. a * b;
  over = λ a n. a / n;
  sqrt = λ x. root_from x x 0;
  truncate = λ x. x;
  quotient = λ a b. a / b;
}

abbrev two_times : List ℕ
two_times = 4 ∷ 8 ∷ []

abbrev memory : ℕ → Option (List ℕ)
memory k = some (replicate k 7)

abbrev fresh : Stats
fresh = record { nr_threads = 2; nr_executions = 1; nr_runs = 2; sample = 0 ∷ 0 ∷ 0 ∷ 0 ∷ [] }

abbrev pub entered : Stats
entered = record fresh { sample = 5 ∷ 0 ∷ 4 ∷ 8 ∷ [] }

fresh-IsValid : IsValid fresh
fresh-IsValid = omega arith

pub entered-IsValid : IsValid entered
entered-IsValid = omega arith

abbrev pub everyone : Collector
everyone = record {
  population_size = 2;
  start_index = 0;
  stop_index = 2;
  nr_samples = 2;
  is_scaling = true;
  sample = 0 ∷ 0 ∷ [];
}

pub everyone-IsValid : CollectorLaws.IsValid everyone
everyone-IsValid = omega arith

last_cell : enter_sample entered 9 1 0 1 ≡ some (record entered { sample = 5 ∷ 0 ∷ 4 ∷ 9 ∷ [] })
unfolding enter_sample s_index
last_cell = refl

enter_sample_example :
    (st : Stats) × (enter_sample fresh 9 1 0 1 ≡ some st)
    × (st ≡ record fresh { sample = st.sample })
    × IsValid st
    × (get_or st.sample (exec_offset fresh 1 0 + 1) 0 ≡ 9)
    × ((tid exec run : ℕ)
        → InRange fresh tid exec run
        → (1 ≢ tid) ⊎ ((0 ≢ exec) ⊎ (1 ≢ run))
        → get_or st.sample (exec_offset fresh run exec + tid) 0
          ≡ get_or fresh.sample (exec_offset fresh run exec + tid) 0)
enter_sample_example = enter_sample_lem fresh-IsValid (omega arith) 9

do_stats_bounds_example :
    let r = do_stats whole two_times (new_result whole) in
    Occurs r.max two_times
    × AllLe r.max two_times
    × (r.mean * length two_times ≤ sum two_times)
    × (sum two_times < (r.mean + 1) * length two_times)
    × (r.mean ≤ r.max)
    × (r.median ≡ 0)
do_stats_bounds_example = do_stats_bounds whole 4 (8 ∷ []) (new_result whole) (omega arith)

two_samples : (do_stats whole two_times (new_result whole)).stdev ≡ 2
unfolding do_stats
two_samples = refl

median_of_four : median_of whole (9 ∷ 1 ∷ 4 ∷ 7 ∷ []) ≡ 5
unfolding median_of
median_of_four = refl

abbrev four_times : List ℕ
four_times = 9 ∷ 1 ∷ 4 ∷ 7 ∷ []

whole-IsExact : IsExact whole
unfolding IsExact
whole-IsExact = λ k h. refl

median_of_halves_example :
    (length four_times ≤ 2 * count (λ t. leb t (median_of whole four_times)) four_times)
    × (length four_times ≤ 2 * count (λ t. leb (median_of whole four_times) t) four_times)
median_of_halves_example = median_of_halves whole whole-IsExact 9 (1 ∷ 4 ∷ 7 ∷ []) (omega arith)

aggregate_statistics_example :
    (c : Collector) × (aggregate_statistics whole entered everyone
      ≡ some (
        tabulate 0 2 (reference_run whole entered everyone),
        map (overall whole) (tabulate 0 2 (reference_run whole entered everyone)),
        c,
      ))
aggregate_statistics_example =
    aggregate_statistics-eq whole entered everyone entered-IsValid (omega arith) everyone-IsValid
      (omega arith) (omega arith)
