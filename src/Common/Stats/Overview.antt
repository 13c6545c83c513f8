-- ===== src/Common/Stats/Overview.antt =====
-- common/stats/stats.cpp: `dump_all_runs`, the overview over all runs, as the items sent to a stream.
pub mod Rows
use shm_sync.Prelude.{ℕ, zero, suc, ◌+◌, List, [], ◌∷◌, ◌++◌, get_or}
use shm_sync.Common.Stats.Samples.{Stats}
use shm_sync.Common.Stats.Stream.{chars, num, dbl, endl, right, setw}
use shm_sync.Common.Stats.Summary.{Floats, Result}
use shm_sync.Common.Stats.Aggregate.{new_result}
use shm_sync.Common.Stats.Widths.{Printer, num_width, widest}
use shm_sync.Common.Stats.Print.{Out, text, blank, print_sep, widest_of, at_least, w_cv}

module _ (F : Floats) (P : Printer F.Double) where
  -- The widths of the columns of `dump_all_runs`. `w_median` is taken from `w_max`.
  pub record Overview : Type 0 where
    pub w_run : ℕ
    pub w_max : ℕ
    pub w_median : ℕ
    pub w_mean : ℕ
    pub w_stdev : ℕ

  pub overview : Stats → List (Result F.Double) → Overview
  overview st res_run =
      let w_max = at_least F P 3 (widest_of F P (λ r. r.max) st.nr_runs res_run) in
      record {
        w_run = widest P 3 (num_width P (P.of st.nr_runs));
        w_max = w_max;
        w_median = at_least F P 6 w_max;
        w_mean = at_least F P 4 (widest_of F P (λ r. r.mean) st.nr_runs res_run);
        w_stdev = at_least F P 5 (widest_of F P (λ r. r.stdev) st.nr_runs res_run);
      }

  abbrev pub overview_width : Overview → ℕ
  overview_width o = o.w_run + o.w_max + o.w_median + o.w_mean + o.w_stdev + w_cv F P + 5

  abbrev pub run_row : Overview → ℕ → Result F.Double → Out F P
  run_row o run r =
      right
      ∷ setw o.w_run
      ∷ num run
      ∷ blank F P
      ∷ right
      ∷ setw o.w_median
      ∷ num r.median
      ∷ blank F P
      ∷ right
      ∷ setw o.w_max
      ∷ num r.max
      ∷ blank F P
      ∷ right
      ∷ setw o.w_mean
      ∷ num r.mean
      ∷ blank F P
      ∷ right
      ∷ setw o.w_stdev
      ∷ num r.stdev
      ∷ blank F P
      ∷ right
      ∷ setw (w_cv F P)
      ∷ dbl r.cv
      ∷ endl
      ∷ []

  pub run_rows : Overview → List (Result F.Double) → (todo run : ℕ) → Out F P
  run_rows o res_run zero run = []
  run_rows o res_run (suc todo) run =
      run_row o run (get_or res_run run (new_result F)) ++ run_rows o res_run todo (suc run)

  pub dump_all_runs : Stats → List (Result F.Double) → Out F P
  dump_all_runs st res_run =
      let o = overview st res_run in
      let w = overview_width o in
      print_sep F P w b'@'
      ++ (text F P (chars "Overview across runs:\n") ∷ [])
      ++ print_sep F P w b'-'
      ++ (setw o.w_run
          ∷ text F P (chars "RUN")
          ∷ blank F P
          ∷ setw o.w_median
          ∷ text F P (chars "MEDIAN")
          ∷ blank F P
          ∷ setw o.w_max
          ∷ text F P (chars "MAX")
          ∷ blank F P
          ∷ setw o.w_mean
          ∷ text F P (chars "MEAN")
          ∷ blank F P
          ∷ setw o.w_stdev
          ∷ text F P (chars "STDEV")
          ∷ blank F P
          ∷ setw (w_cv F P)
          ∷ text F P (chars "CV")
          ∷ endl
          ∷ [])
      ++ print_sep F P w b'-'
      ++ run_rows o res_run st.nr_runs 0
      ++ print_sep F P w b'@'
