-- ===== src/Common/Stats/Binding/Names.antt =====
-- common/ada_binding/stats/binding.cpp: which names `dumpPair` can take.
use shm_sync.Prelude.{
  ℕ, ◌+◌, ◌-◌, ◌*◌, ◌^◌, ◌≤◌, ◌<◌, ◌≡◌, ltb, Bool, false, Option, none, some, List, [], ◌++◌,
  length, refl, arith, lt→ltb, replicate, length-replicate,
}
use shm_sync.Common.Collector.{Collector, range_smpl_collector}
use shm_sync.Common.Collector.Laws as CollectorLaws
use shm_sync.Common.Stats.Samples.{Stats}
use shm_sync.Common.Stats.Samples.Layout.{IsValid}
use shm_sync.Common.Stats.Stream.{chars}
use shm_sync.Common.Stats.Summary.{Floats}
use shm_sync.Common.Stats.Widths.{Printer}
use shm_sync.Common.Stats.Dump.{Stream, Console}
use shm_sync.Common.Stats.Dump.Copies.{dump_data_returns}
use shm_sync.Common.Stats.Binding.{in_tmp, dump_pair}

module _ (F : Floats) (P : Printer F.Double) (st : Stats) (v : IsValid st) (nr_pairs : ℕ)
    (threads : st.nr_threads ≡ 2 * nr_pairs) (executions : 0 < st.nr_executions)
    (runs : st.nr_runs ≤ nr_pairs) (word : 2 * nr_pairs < 2 ^ 32) where
  abbrev memory : ℕ → Option (List ℕ)
  memory k = some (replicate k 0)

  -- The collector of half of the threads.
  collected :
      (start stop : ℕ) (scaling : Bool)
      → start ≤ stop
      → stop ≤ 2 * nr_pairs
      → stop - start ≡ nr_pairs
      → (c : Collector) × (range_smpl_collector memory (2 * nr_pairs) start stop scaling ≡ some c)
        × CollectorLaws.IsValid c
        × (c.stop_index ≤ st.nr_threads)
        × (st.nr_runs ≤ c.stop_index - c.start_index)
  collected start stop scaling h k size =
      let (c, built, valid, s, e, sc) =
        CollectorLaws.range_smpl_collector-IsValid memory (2 * nr_pairs) start stop scaling
          (replicate (stop - start) 0) h k word refl (length-replicate {A = ℕ} (stop - start) 0) in
      (c, built, valid, omega (arith, e, threads), omega (arith, s, e, runs, size))

  fits :
      (f_name suffix : List ℕ)
      → length f_name + length suffix < 256
      → in_tmp f_name suffix ≡ some (f_name ++ suffix)
  fits f_name suffix h = rw (lt→ltb (length f_name + length suffix) 256 h) refl

  overflows :
      (f_name suffix : List ℕ) → 256 ≤ length f_name + length suffix → in_tmp f_name suffix ≡ none
  overflows f_name suffix h =
      let past : ltb (length f_name + length suffix) 256 ≡ false = ground arith in rw past refl

  -- `dumpPair` of the samples of `nr_pairs` producers and as many consumers, without color and with
  -- enough memory: for a name of up to 241 characters both files are written, each call behind the
  -- other, and no results are left. With a longer name `tmp` overflows.
  pub dump_pair_names :
      (ovw_only sc_runs : Bool) (f_name : List ℕ) (con : Console F.Double)
      → (length f_name ≤ 241
          → (producers : Stream) × (consumers : Stream) × (con' : Console F.Double) × (dump_pair F P
                memory false st ovw_only nr_pairs f_name sc_runs con
              ≡ some (some producers, some consumers, con'))
            × (con'.res_exec ≡ [])
            × (con'.res_run ≡ []))
        × (241 < length f_name
            → dump_pair F P memory false st ovw_only nr_pairs f_name sc_runs con ≡ none)
  unfolding dump_pair
  dump_pair_names ovw_only sc_runs f_name con = (
    λ short.
        let (lower, built, valid, within, enough) =
          collected 0 nr_pairs sc_runs (omega arith) (omega arith) (omega arith) in
        let (upper, built', valid', within', enough') =
          collected nr_pairs (2 * nr_pairs) sc_runs (omega arith) (omega arith) (omega arith) in
        let (first, producers, ran, is_open, _, _) =
          dump_data_returns F P memory st ovw_only lower (f_name ++ chars "_producers.txt") con v
            within valid executions enough in
        let (second, consumers, ran', is_open', no_exec, no_run) =
          dump_data_returns F P memory st ovw_only upper (f_name ++ chars "_consumers.txt") first v
            within' valid' executions enough' in
        (
          producers,
          consumers,
          second,
          rw
              (
                fits f_name (chars "_producers.txt") (omega arith),
                built,
                ran,
                fits f_name (chars "_consumers.txt") (omega arith),
                built',
                ran',
                is_open,
                is_open',
              )
              refl,
          no_exec,
          no_run,
        ),
    λ long. rw (overflows f_name (chars "_producers.txt") (omega arith)) refl,
  )
