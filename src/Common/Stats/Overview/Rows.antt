-- ===== src/Common/Stats/Overview/Rows.antt =====
-- common/stats/stats.cpp: the rows of `dump_all_runs` are as wide as the separators.
use shm_sync.Prelude.{ℕ, ◌+◌, ◌^◌, ◌≤◌, ◌<◌, ◌≡◌, List, [], ◌∷◌, length, get_or, arith}
use shm_sync.Common.Stats.Samples.{Stats}
use shm_sync.Common.Stats.Stream.{Format, emit, endl, right, setw, dbl}
use shm_sync.Common.Stats.Summary.{Floats, Result}
use shm_sync.Common.Stats.Aggregate.{new_result}
use shm_sync.Common.Stats.Widths.{Printer, Exact}
use shm_sync.Common.Stats.Widths.Columns.{Fits, Fits-mono, widest-Fits}
use shm_sync.Common.Stats.Print.{w_cv}
use shm_sync.Common.Stats.Print.Cells.{behind, length-cell, column-Fits, length-last_cell}
use shm_sync.Common.Stats.Print.Table.{Fits-le, Modest}
use shm_sync.Common.Stats.Overview.{overview, Overview, overview_width, run_row}

module _ (F : Floats) (P : Printer F.Double) (exact : Exact P) (st : Stats) where
  module _ (res_run : List (Result F.Double)) (counted : length res_run ≡ st.nr_runs)
      (few : st.nr_runs < 2 ^ 53)
      (modest : (run : ℕ) → run < st.nr_runs → Modest (get_or res_run run (new_result F))) where
    abbrev o : Overview F P
    o = overview F P st res_run

    run-Fits :
        (run : ℕ)
        → run < st.nr_runs
        → let r = get_or res_run run (new_result F) in
          Fits run o.w_run
          × Fits r.median o.w_median
          × Fits r.max o.w_max
          × Fits r.mean o.w_mean
          × Fits r.stdev o.w_stdev
    unfolding overview
    run-Fits run h =
        let d = new_result F in
        let r = get_or res_run run d in
        let inside : run < length res_run = omega (arith, counted) in
        let max_fits =
          column-Fits F P exact (λ r. r.max) 3 res_run st.nr_runs run d (λ i k. (modest i k).max) h
            inside in
        (
          Fits-le run st.nr_runs _ (omega arith) (widest-Fits P exact 3 st.nr_runs few).0,
          Fits-mono r.median _ _ (ground arith)
              (Fits-le r.median r.max _ (modest run h).median max_fits),
          max_fits,
          column-Fits F P exact (λ r. r.mean) 4 res_run st.nr_runs run d (λ i k. (modest i k).mean)
              h inside,
          column-Fits F P exact (λ r. r.stdev) 5 res_run st.nr_runs run d
              (λ i k. (modest i k).stdev) h inside,
        )

    -- A row of `dump_all_runs` has the characters of a separator and the end of the line, although
    -- the column of the median is measured by the largest times. The conditions: there are as many
    -- results as runs, all numbers are exact as doubles, no median is above its largest time, and
    -- the coefficient of variation has at most 9 characters in the stream's format.
    pub run_row_width :
        (run : ℕ) (f : Format)
        → run < st.nr_runs
        → length (P.show f.is_scientific f.digits (get_or res_run run (new_result F)).cv) ≤ 9
        → length (emit P.show (run_row F P o run (get_or res_run run (new_result F))) f).0
          ≡ overview_width F P o + 1
    run_row_width run f h cv =
        let r = get_or res_run run (new_result F) in
        let fits = run-Fits run h in
        omega (
          arith,
          length-cell F P run o.w_run _ f fits.0,
          length-cell F P r.median o.w_median _ (behind f) fits.1,
          length-cell F P r.max o.w_max _ (behind f) fits.2,
          length-cell F P r.mean o.w_mean _ (behind f) fits.3,
          length-cell F P r.stdev o.w_stdev (right ∷ setw (w_cv F P) ∷ dbl r.cv ∷ endl ∷ [])
              (behind f) fits.4,
          length-last_cell F P r.cv (w_cv F P) (behind f) cv,
        )
