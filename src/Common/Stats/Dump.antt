-- ===== src/Common/Stats/Dump.antt =====
-- common/stats/stats.cpp: `dumpData` and `dumpRawData`, the tables on standard output and in a file.
pub mod Copies
pub mod Raw
use shm_sync.Prelude.{
  ℕ, zero, suc, ◌+◌, ltb, ◌==◌, ◌||◌, Bool, true, false, if◌then◌else◌, Option, none, some, List,
  [], ◌∷◌, ◌++◌, length, replicate, ◌>>=◌,
}
use shm_sync.Common.Collector.{Collector, range_smpl_collector}
use shm_sync.Common.Stats.Samples.{Stats}
use shm_sync.Common.Stats.Stream.{Item, Format, opened, emit, str, chars}
use shm_sync.Common.Stats.ColorTerm.{c_reset, c_bold_blue}
use shm_sync.Common.Stats.Summary.{Floats, Result}
use shm_sync.Common.Stats.Aggregate.{aggregate_statistics}
use shm_sync.Common.Stats.Widths.{Printer}
use shm_sync.Common.Stats.Overview.{dump_all_runs}
use shm_sync.Common.Stats.Print.{Out, print_sep, dump_details_of_run}

-- A stream: the text so far and the format.
pub record Stream : Type 0 where
  pub content : List ℕ
  pub format : Format

-- What `dumpData` changes: standard output, the file, and the results.
pub record Console (D : Type 0) : Type 0 where
  pub cout : Stream
  pub ofl : Option Stream
  pub res_exec : List (List (Result D))
  pub res_run : List (Result D)

module _ (F : Floats) (P : Printer F.Double) where
  abbrev pub send : Out F P → Stream → Stream
  send items s =
      let (more, f) = emit P.show items s.format in
      record { content = s.content ++ more; format = f }

  -- The same items to standard output and, if there is one, to the file; the first are those for
  -- standard output.
  abbrev pub send_both : Out F P → Out F P → Console F.Double → Console F.Double
  send_both items plain con = record con {
    cout = send items con.cout;
    ofl = elim con.ofl [ none ↦ none | some file ↦ some (send plain file) ];
  }

  -- The name of the file between lines of `x`.
  abbrev pub header : Bool → List ℕ → Out F P
  header use_color f_name =
      let h_width = length f_name + 4 in
      (if use_color then str c_bold_blue ∷ [] else [])
      ++ print_sep F P h_width b'x'
      ++ (str (chars "x ") ∷ str f_name ∷ str (chars " x\n") ∷ [])
      ++ print_sep F P h_width b'x'
      ++ (if use_color then str c_reset ∷ [] else [])

  -- The loop over the runs, from run `run`; `none` is the exit of `includes`.
  pub dump_runs :
      Bool → Stats → Collector → (todo run : ℕ) → Console F.Double → Option (Console F.Double)
  dump_runs use_color st col zero run con = some con
  dump_runs use_color st col (suc todo) run con = do
    shown ← dump_details_of_run F P use_color st con.res_exec con.res_run run col
    plain ← dump_details_of_run F P false st con.res_exec con.res_run run col
    dump_runs use_color st col todo (suc run) (send_both shown plain con)

  -- `deleteDump`.
  abbrev pub delete_dump : Console F.Double → Console F.Double
  delete_dump con = record con { res_exec = []; res_run = [] }

  -- The collector of all threads, if the caller gives none.
  abbrev pub my_collector : (ℕ → Option (List ℕ)) → Stats → Option Collector → Option Collector
  my_collector memory st (some col) = some col
  my_collector memory st none =
      range_smpl_collector memory st.nr_threads 0 st.nr_threads (ltb 1 st.nr_runs)

  -- The file is opened and the header written, if a name is given.
  abbrev pub open_file : Bool → Option (List ℕ) → Console F.Double → Console F.Double
  open_file use_color none con = record con { ofl = none }
  open_file use_color (some f_name) con = record con {
    cout = send (header use_color f_name) con.cout;
    ofl = some (record { content = []; format = opened });
  }

  -- The overview over all runs.
  abbrev pub show_overview : Bool → Stats → Console F.Double → Console F.Double
  show_overview ovw_only st con =
      if ovw_only || ltb 1 st.nr_runs
      then send_both (dump_all_runs F P st con.res_run) (dump_all_runs F P st con.res_run) con
      else con

  -- `use_color` says whether standard output is colored. `none` is the end of the program by a
  -- failed assertion, allocation or range check.
  pub dump_data :
      (ℕ → Option (List ℕ))
      → Bool
      → Stats
      → (ovw_only : Bool) → Option Collector
      → Option (List ℕ)
      → Console F.Double
      → Option (Console F.Double)
  dump_data memory use_color st ovw_only col f_name con = do
    my_col ← my_collector memory st col
    (new_exec, new_run, filled) ← aggregate_statistics F st my_col
    let opened_con =
        open_file use_color f_name
          (record con { res_exec = con.res_exec ++ new_exec; res_run = con.res_run ++ new_run })
    detailed ←
        if ovw_only then some opened_con else dump_runs use_color st filled st.nr_runs 0 opened_con
    some (delete_dump (show_overview ovw_only st detailed))
