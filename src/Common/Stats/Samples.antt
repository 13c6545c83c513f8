-- ===== src/Common/Stats/Samples.antt =====
-- common/stats/stats.cpp: the three-dimensional array of samples, one number for each run,
-- execution and thread, laid out in one block of memory.
pub mod Layout
use shm_sync.Prelude.{
  ℕ, ◌+◌, ◌*◌, ◌%◌, ◌^◌, ltb, if◌then◌else◌, Option, none, some, List, length, set, replicate,
}

abbrev pub u32 : ℕ → ℕ
u32 x = x % 2 ^ 32

abbrev pub u64 : ℕ → ℕ
u64 x = x % 2 ^ 64

-- The globals `nr_threads`, `nr_executions`, `nr_runs` (`uint32_t`) and `sample`. The block is the
-- list of its elements.
pub record Stats : Type 0 where
  pub nr_threads : ℕ
  pub nr_executions : ℕ
  pub nr_runs : ℕ
  pub sample : List ℕ

-- The elements that `initStats` asks for: `size_in_bytes` over `sizeof(long long)`. The product of
-- the three counts is taken in 32 bits.
abbrev pub elements : ℕ → ℕ → ℕ → ℕ
elements nr_threads nr_exec nr_runs = u32 (u32 (nr_threads * nr_exec) * nr_runs)

-- `enough` says whether `aligned_alloc` finds that many elements; if not, the program ends.
unfoldable pub init_stats : (ℕ → Option (List ℕ)) → ℕ → ℕ → ℕ → Option Stats
init_stats memory nr_threads nr_exec nr_runs = elim (memory (elements nr_threads nr_exec nr_runs)) [
  | none ↦ none
  | some block ↦ some (record {
    nr_threads = nr_threads;
    nr_executions = nr_exec;
    nr_runs = nr_runs;
    sample = replicate (elements nr_threads nr_exec nr_runs) 0;
  })
]

-- The index that `enterSample` writes to.
unfoldable pub s_index : Stats → ℕ → ℕ → ℕ → ℕ
s_index st tid nr_exec nr_run =
    let samples_per_run = u32 (st.nr_threads * st.nr_executions) in
    u64 (u64 (u64 (samples_per_run * nr_run) + u32 (st.nr_threads * nr_exec)) + tid)

-- `none` where an assertion fails, or the index is not inside the block.
unfoldable pub enter_sample : Stats → ℕ → ℕ → ℕ → ℕ → Option Stats
enter_sample st s tid nr_exec nr_run =
    if ltb nr_exec st.nr_executions
    then (if ltb nr_run st.nr_runs
        then (if ltb (s_index st tid nr_exec nr_run) (length st.sample)
            then some (record st { sample = set st.sample (s_index st tid nr_exec nr_run) s })
            else none)
        else none)
    else none

-- The index of the first sample of an execution, as `aggregateStatistics` computes it.
unfoldable pub exec_offset : Stats → ℕ → ℕ → ℕ
exec_offset st run exec =
    let run_offset = u32 (u32 (st.nr_executions * st.nr_threads) * run) in
    u32 (run_offset + u32 (exec * st.nr_threads))
