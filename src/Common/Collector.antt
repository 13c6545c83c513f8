-- ===== src/Common/Collector.antt =====
-- common/stats/smpl_collector.cpp: which samples of a row belong to a run.
pub mod Laws
mod Tests
use shm_sync.Prelude.{
  ℕ, zero, suc, ◌+◌, ◌-◌, ◌%◌, ◌^◌, Bool, true, false, not, ◌||◌, ltb, leb, if◌then◌else◌, Option,
  none, some, List, [], ◌∷◌, get_or, set, replicate,
}

abbrev pub u32 : ℕ → ℕ
u32 x = x % 2 ^ 32

-- `range_smpl_collector`, with the buffer `sample` that its constructor allocates. The numbers
-- are `uint32_t`; a sample is a duration in nanoseconds.
pub record Collector : Type 0 where
  pub population_size : ℕ
  pub start_index : ℕ
  pub stop_index : ℕ
  pub nr_samples : ℕ
  pub is_scaling : Bool
  pub sample : List ℕ

abbrev pub sub_u32 : ℕ → ℕ → ℕ
sub_u32 a b = (a + 2 ^ 32 - b) % 2 ^ 32

-- The constructor. `memory` is what `aligned_alloc` returns for the given number of elements,
-- `none` for a null pointer, on which the constructor ends the program.
unfoldable pub range_smpl_collector : (ℕ → Option (List ℕ)) → ℕ → ℕ → ℕ → Bool → Option Collector
range_smpl_collector memory population_size start_index stop_index is_scaling =
    elim (memory (sub_u32 stop_index start_index)) [
      | none ↦ none
      | some buffer ↦ some (record {
        population_size = population_size;
        start_index = start_index;
        stop_index = stop_index;
        nr_samples = sub_u32 stop_index start_index;
        is_scaling = is_scaling;
        sample = buffer;
      })
    ]

-- The copy loop of `get_samples`, with `todo` elements to go.
pub copy_from : ℕ → ℕ → List ℕ → ℕ → List ℕ → List ℕ
copy_from zero smpl_idx sample start row = sample
copy_from (suc todo) smpl_idx sample start row =
    copy_from todo (suc smpl_idx) (set sample smpl_idx (get_or row (u32 (start + smpl_idx)) 0))
      start row

abbrev pub upper : Collector → ℕ → ℕ
upper c run = if c.is_scaling then u32 (run + 1) else sub_u32 c.stop_index c.start_index

-- The collector with its buffer filled; `none` where the assertion fails.
unfoldable pub get_samples : Collector → ℕ → List ℕ → Option Collector
get_samples c run row =
    if ltb run c.nr_samples
    then some (record c { sample = copy_from (upper c run) 0 c.sample c.start_index row })
    else none

unfoldable pub get_nr_samples : Collector → ℕ → Option ℕ
get_nr_samples c run =
    if c.is_scaling
    then (if ltb run c.nr_samples then some (u32 (run + 1)) else none)
    else some c.nr_samples

-- `none` is the exit with "sample_nr out of range".
unfoldable pub includes : Collector → ℕ → ℕ → Option Bool
includes c run sample_nr =
    if leb c.population_size sample_nr
    then none
    else if ltb sample_nr c.start_index || leb c.stop_index sample_nr
    then some false
    else if c.is_scaling
    then some (leb sample_nr (u32 (c.start_index + run)))
    else some true
