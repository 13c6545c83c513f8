-- ===== src/Common/Stats/Binding.antt =====
-- common/ada_binding/stats/binding.cpp: the calls of `dumpData` for the Ada benchmarks.
pub mod Names
use shm_sync.Prelude.{
  ℕ, ◌+◌, ◌*◌, ltb, Bool, if◌then◌else◌, Option, none, some, List, ◌++◌, length, ◌>>=◌,
}
use shm_sync.Common.Collector.{range_smpl_collector}
use shm_sync.Common.Stats.Samples.{Stats}
use shm_sync.Common.Stats.Stream.{chars}
use shm_sync.Common.Stats.Summary.{Floats}
use shm_sync.Common.Stats.Widths.{Printer}
use shm_sync.Common.Stats.Dump.{Stream, Console, dump_data}

-- `strcat` behind `strcpy` into `char tmp[256]`, with a byte for the end; `none` where it writes
-- past the array.
abbrev pub in_tmp : List ℕ → List ℕ → Option (List ℕ)
in_tmp f_name suffix =
    if ltb (length f_name + length suffix) 256 then some (f_name ++ suffix) else none

module _ (F : Floats) (P : Printer F.Double) (memory : ℕ → Option (List ℕ)) (use_color : Bool)
    (st : Stats) where
  pub dump_single : Bool → Console F.Double → Option (Console F.Double)
  dump_single ovw_only con = dump_data F P memory use_color st ovw_only none none con

  -- With what it leaves, the files for the producers and the consumers.
  pub dump_pair :
      Bool
      → (nr_pairs : ℕ) → List ℕ
      → Bool
      → Console F.Double
      → Option (Option Stream × Option Stream × Console F.Double)
  dump_pair ovw_only nr_pairs f_name sc_runs con = do
    producers ← in_tmp f_name (chars "_producers.txt")
    col_lower ← range_smpl_collector memory (2 * nr_pairs) 0 nr_pairs sc_runs
    first ← dump_data F P memory use_color st ovw_only (some col_lower) (some producers) con
    consumers ← in_tmp f_name (chars "_consumers.txt")
    col_upper ← range_smpl_collector memory (2 * nr_pairs) nr_pairs (2 * nr_pairs) sc_runs
    second ← dump_data F P memory use_color st ovw_only (some col_upper) (some consumers) first
    some (first.ofl, second.ofl, second)
