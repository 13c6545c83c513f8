-- ===== src/Common/Stats/Print.antt =====
-- common/stats/stats.cpp: the tables of `dumpData`, as the items sent to a stream.
pub mod Cells
pub mod Table
pub mod Plain
use shm_sync.Prelude.{
  ℕ, zero, suc, ◌+◌, ◌*◌, ltb, ◌==◌, Bool, true, false, if◌then◌else◌, Option, none, some, List, [],
  ◌∷◌, ◌++◌, take, get_or, replicate, ◌>>=◌,
}
use shm_sync.Common.Collector.{Collector, includes}
use shm_sync.Common.Stats.Samples.{Stats}
use shm_sync.Common.Stats.Stream.{
  chars, Item, str, num, dbl, endl, left, right, setw, scientific, precision,
}
use shm_sync.Common.Stats.ColorTerm.{c_reset, c_bold_green}
use shm_sync.Common.Stats.Summary.{Floats, Result, accumulate}
use shm_sync.Common.Stats.Aggregate.{new_result}
use shm_sync.Common.Stats.Widths.{Printer, num_width, widest, sample_at, compute_sample_widths}

module _ (F : Floats) (P : Printer F.Double) where
  abbrev pub Out : Type 0
  Out = List (Item F.Double)

  abbrev pub text : List ℕ → Item F.Double
  text t = str t

  abbrev pub blank : Item F.Double
  blank = str (b' ' ∷ [])

  -- `printSep`.
  pub print_sep : ℕ → ℕ → Out
  print_sep zero sep = endl ∷ []
  print_sep (suc cols) sep = str (sep ∷ []) ∷ print_sep cols sep

  -- The widest number of a field in the first results of a list.
  abbrev pub widest_of : (Result F.Double → ℕ) → ℕ → List (Result F.Double) → ℕ
  widest_of field count results =
      accumulate (λ w r. widest P w (num_width P (P.of (field r)))) 0 (take count results)

  -- The widths of the columns of `dump_details_of_run`. The one for `cv` is set to 9.
  pub record Columns : Type 0 where
    pub w_exec : ℕ
    pub w_max : ℕ
    pub w_mean : ℕ
    pub w_stdev : ℕ
    pub width : List ℕ

  abbrev pub w_cv : ℕ
  w_cv = 9

  -- `std::max` of two widths.
  abbrev pub at_least : ℕ → ℕ → ℕ
  at_least a b = if ltb a b then b else a

  pub columns : Stats → ℕ → List (Result F.Double) → Columns
  columns st run r_exes = record {
    w_exec = widest P 3 (num_width P (P.of st.nr_executions));
    w_max = at_least 3 (widest_of (λ r. r.max) st.nr_executions r_exes);
    w_mean = at_least 4 (widest_of (λ r. r.mean) st.nr_executions r_exes);
    w_stdev = at_least 5 (widest_of (λ r. r.stdev) st.nr_executions r_exes);
    width = compute_sample_widths P st (replicate st.nr_threads 0) run true;
  }

  abbrev pub line_width : Stats → Columns → ℕ
  line_width st c =
      c.w_exec
      + c.w_max
      + c.w_mean
      + c.w_stdev
      + w_cv
      + accumulate (λ a x. a + x) 0 c.width
      + 4
      + st.nr_threads

  -- The samples of a row from thread `thr`, `todo` threads to go; `none` is the exit of `includes`.
  pub sample_cells : Bool → Stats → Collector → List ℕ → (run exec todo thr : ℕ) → Option Out
  sample_cells use_color st col width run exec zero thr = some []
  sample_cells use_color st col width run exec (suc todo) thr = do
    reset_color ← if use_color then includes col run thr else some false
    rest ← sample_cells use_color st col width run exec todo (suc thr)
    some (
        (if reset_color then str c_bold_green ∷ [] else [])
        ++ (right ∷ setw (get_or width thr 0) ∷ num (sample_at P st run exec thr) ∷ blank ∷ [])
        ++ (if reset_color then str c_reset ∷ [] else [])
        ++ rest)

  -- The numbers in front of the samples.
  abbrev pub result_cells : Columns → ℕ → Result F.Double → Out
  result_cells c exec r =
      right
      ∷ setw c.w_exec
      ∷ num exec
      ∷ blank
      ∷ right
      ∷ setw c.w_max
      ∷ num r.max
      ∷ blank
      ∷ right
      ∷ setw c.w_mean
      ∷ num r.mean
      ∷ blank
      ∷ right
      ∷ setw c.w_stdev
      ∷ num r.stdev
      ∷ blank
      ∷ right
      ∷ scientific
      ∷ dbl r.cv
      ∷ blank
      ∷ []

  -- A row of the table, for one execution.
  abbrev pub exec_row :
      Bool → Stats → Collector → Columns → (run exec : ℕ) → Result F.Double → Option Out
  exec_row use_color st col c run exec r = do
    cells ← sample_cells use_color st col c.width run exec st.nr_threads 0
    some (result_cells c exec r ++ cells ++ (endl ∷ []))

  -- The rows from execution `exec`.
  pub exec_rows :
      Bool → Stats → Collector → Columns → List (Result F.Double) → (run todo exec : ℕ) → Option Out
  exec_rows use_color st col c r_exes run zero exec = some []
  exec_rows use_color st col c r_exes run (suc todo) exec = do
    row ← exec_row use_color st col c run exec (get_or r_exes exec (new_result F))
    rest ← exec_rows use_color st col c r_exes run todo (suc exec)
    some (row ++ rest)

  -- The label of a run and the captions.
  abbrev pub run_label : Stats → ℕ → ℕ → Out
  run_label st w run =
      if ltb 1 st.nr_runs
      then print_sep w b'*'
        ++ (text (chars "RUN ") ∷ num run ∷ text (chars ":\n") ∷ [])
        ++ print_sep w b'*'
      else print_sep w b'-'

  abbrev pub captions : Columns → Out
  captions c =
      left
      ∷ setw c.w_exec
      ∷ text (chars "EXE")
      ∷ blank
      ∷ left
      ∷ setw c.w_max
      ∷ text (chars "MAX")
      ∷ blank
      ∷ left
      ∷ setw c.w_mean
      ∷ text (chars "MEAN")
      ∷ blank
      ∷ left
      ∷ setw c.w_stdev
      ∷ text (chars "STDEV")
      ∷ blank
      ∷ left
      ∷ setw w_cv
      ∷ text (chars "CV")
      ∷ text (chars " SAMPLES:\n")
      ∷ []

  -- The part of `dump_details_of_run` over all executions.
  abbrev pub overall_lines : Stats → ℕ → ℕ → Result F.Double → Out
  overall_lines st w run r_run =
      let w_median = widest P 6 (num_width P (P.of r_run.median)) in
      let w_ostdev = widest P 5 (num_width P (P.of r_run.stdev)) in
      (text (chars "OVERALL") ∷ [])
      ++ (if ltb 1 st.nr_runs
          then text (chars " EXECUTIONS OF RUN ") ∷ num run ∷ text (chars ":") ∷ []
          else [])
      ++ (endl
          ∷ setw w_median
          ∷ text (chars "MEDIAN")
          ∷ blank
          ∷ setw w_ostdev
          ∷ text (chars "STDEV")
          ∷ text (chars " CV\n")
          ∷ [])
      ++ print_sep w b'-'
      ++ (right
          ∷ setw w_median
          ∷ num r_run.median
          ∷ blank
          ∷ right
          ∷ setw w_ostdev
          ∷ num r_run.stdev
          ∷ blank
          ∷ right
          ∷ dbl r_run.cv
          ∷ endl
          ∷ [])
      ++ print_sep w b'-'

  pub dump_details_of_run :
      Bool
      → Stats
      → List (List (Result F.Double))
      → List (Result F.Double)
      → ℕ
      → Collector
      → Option Out
  dump_details_of_run use_color st res_exec res_run run col = do
    let r_exes = get_or res_exec run []
    let c = columns st run r_exes
    let w = line_width st c
    rows ← exec_rows use_color st col c r_exes run st.nr_executions 0
    some (
        (precision 3 ∷ [])
        ++ run_label st w run
        ++ captions c
        ++ print_sep w b'-'
        ++ rows
        ++ print_sep w b'-'
        ++ overall_lines st w run (get_or res_run run (new_result F)))
