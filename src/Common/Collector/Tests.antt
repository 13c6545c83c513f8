-- ===== src/Common/Collector/Tests.antt =====
-- The consumers of two pairs: threads 2 and 3 of four, in scaling runs.
use shm_sync.Prelude.{
  ℕ, ◌+◌, ◌≤◌, ◌<◌, ◌≡◌, true, false, Option, some, List, [], ◌∷◌, get_or, replicate, refl, arith,
}
use shm_sync.Common.Collector.{Collector, copy_from, get_samples, get_nr_samples, includes}
use shm_sync.Common.Collector.Laws.{IsValid, get_samples_lem}

abbrev memory : ℕ → Option (List ℕ)
memory k = some (replicate k 0)

abbrev consumers : Collector
consumers = record {
  population_size = 4;
  start_index = 2;
  stop_index = 4;
  nr_samples = 2;
  is_scaling = true;
  sample = 0 ∷ 0 ∷ [];
}

consumers-IsValid : IsValid consumers
consumers-IsValid = omega arith

abbrev row : List ℕ
row = 10 ∷ 11 ∷ 12 ∷ 13 ∷ []

get_samples_example :
    (c : Collector) × (n : ℕ) × (get_samples consumers 0 row ≡ some c)
    × (get_nr_samples c 0 ≡ some n)
    × (n ≡ 1)
    × (2 + n ≤ 4)
    × ((k : ℕ) → k < n → get_or c.sample k 0 ≡ get_or row (2 + k) 0)
    × IsValid c
    × (c ≡ record consumers { sample = c.sample })
get_samples_example = get_samples_lem consumers-IsValid 0 (omega arith) row

second_run : get_samples consumers 1 row ≡ some (record consumers { sample = 12 ∷ 13 ∷ [] })
unfolding get_samples copy_from
second_run = refl

first_run_excludes_3 : includes consumers 0 3 ≡ some false
unfolding includes
first_run_excludes_3 = refl
