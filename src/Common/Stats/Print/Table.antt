-- ===== src/Common/Stats/Print/Table.antt =====
-- common/stats/stats.cpp: the lines of the tables are as wide as the separators between them.
use shm_sync.Prelude.{
  ℕ, ◌+◌, ◌^◌, ◌≤◌, ◌<◌, ◌≡◌, true, false, some, List, [], ◌∷◌, ◌++◌, length, get_or, replicate,
  length-replicate, refl, ap, arith,
}
use shm_sync.Common.Collector.{Collector}
use shm_sync.Common.Stats.Samples.{Stats}
use shm_sync.Common.Stats.Stream.{Item, Format, emit, endl, right, dbl, scientific}
use shm_sync.Common.Stats.Summary.{Floats, Result}
use shm_sync.Common.Stats.Aggregate.{new_result}
use shm_sync.Common.Stats.Widths.{Printer, Exact, sample_at}
use shm_sync.Common.Stats.Widths.Columns.{Fits, widest-Fits, compute_sample_widths_lem}
use shm_sync.Common.Stats.Print.{columns, Columns, line_width, exec_row, result_cells, blank, w_cv}
use shm_sync.Common.Stats.Print.Cells.{
  behind, length-cell, sum_from, accumulate-sum_from, sample_cells-length, column-Fits,
  length-scientific_cell,
}

-- A smaller number fits too.
pub Fits-le : (m n w : ℕ) → m ≤ n → Fits n w → Fits m w
Fits-le m n w le f = (omega (arith, f.0), f.1)

-- The numbers of a result are exact as doubles, and the median is not above the largest time.
pub record Modest {D : Type 0} (r : Result D) : Type 0 where
  pub max : r.max < 2 ^ 53
  pub mean : r.mean < 2 ^ 53
  pub stdev : r.stdev < 2 ^ 53
  pub median : r.median ≤ r.max

module _ (F : Floats) (P : Printer F.Double) (exact : Exact P) (st : Stats) where
  module _ (col : Collector) (run : ℕ) (r_exes : List (Result F.Double))
      (counted : length r_exes ≡ st.nr_executions) (few : st.nr_executions < 2 ^ 53)
      (small : (exec thr : ℕ) → sample_at P st run exec thr < 2 ^ 53)
      (modest : (exec : ℕ)
        → exec < st.nr_executions
        → Modest (get_or r_exes exec (new_result F))) where
    abbrev c : Columns F P
    c = columns F P st run r_exes

    widths :
        (length c.width ≡ st.nr_threads)
        × ((exec thr : ℕ)
            → exec < st.nr_executions
            → thr < st.nr_threads
            → Fits (sample_at P st run exec thr) (get_or c.width thr 0))
    unfolding columns
    widths =
        let (full, fits, grows, reached) =
          compute_sample_widths_lem P exact st run small (replicate st.nr_threads 0) true
            (length-replicate {A = ℕ} st.nr_threads 0) in
        (full, fits)

    row-Fits :
        (exec : ℕ)
        → exec < st.nr_executions
        → let r = get_or r_exes exec (new_result F) in
          Fits exec c.w_exec × Fits r.max c.w_max × Fits r.mean c.w_mean × Fits r.stdev c.w_stdev
    unfolding columns
    row-Fits exec h =
        let d = new_result F in
        let inside : exec < length r_exes = omega (arith, counted) in
        (
          Fits-le exec st.nr_executions _ (omega arith)
              (widest-Fits P exact 3 st.nr_executions few).0,
          column-Fits F P exact (λ r. r.max) 3 r_exes st.nr_executions exec d
              (λ i k. (modest i k).max) h inside,
          column-Fits F P exact (λ r. r.mean) 4 r_exes st.nr_executions exec d
              (λ i k. (modest i k).mean) h inside,
          column-Fits F P exact (λ r. r.stdev) 5 r_exes st.nr_executions exec d
              (λ i k. (modest i k).stdev) h inside,
        )

    length-result_cells :
        (k : Columns F P) (exec : ℕ) (r : Result F.Double) (rest : List (Item F.Double))
        (f : Format)
        → Fits exec k.w_exec × Fits r.max k.w_max × Fits r.mean k.w_mean × Fits r.stdev k.w_stdev
        → f.digits ≡ 3
        → length (P.show true 3 r.cv) ≡ 9
        → length (emit P.show (result_cells F P k exec r ++ rest) f).0
          ≡ k.w_exec
            + k.w_max
            + k.w_mean
            + k.w_stdev
            + w_cv F P
            + 5
            + length
                (emit P.show rest (record f { is_left = false; width = 0; is_scientific = true })).0
    length-result_cells k exec r rest f fits digits cv =
        let tail = right ∷ scientific ∷ dbl r.cv ∷ blank F P ∷ rest in
        omega (
          arith,
          length-cell F P exec k.w_exec _ f fits.0,
          length-cell F P r.max k.w_max _ (behind f) fits.1,
          length-cell F P r.mean k.w_mean _ (behind f) fits.2,
          length-cell F P r.stdev k.w_stdev tail (behind f) fits.3,
          length-scientific_cell F P r.cv rest (behind f) refl digits cv,
        )

    -- A row of `dump_details_of_run` without color: `includes` is not called, and the row has the
    -- characters of a separator, a blank and the end of the line. The conditions: there are as many
    -- results as executions, all numbers are exact as doubles, and the coefficient of variation has
    -- the usual 9 characters in scientific notation.
    pub exec_row_width :
        (exec : ℕ) (f : Format)
        → exec < st.nr_executions
        → f.digits ≡ 3
        → length (P.show true 3 (get_or r_exes exec (new_result F)).cv) ≡ 9
        → (row : List (Item F.Double)) × (exec_row F P false st col c run exec
              (get_or r_exes exec (new_result F))
            ≡ some row)
          × (length (emit P.show row f).0 ≡ line_width F P st c + 2)
    exec_row_width exec f h digits cv =
        let r = get_or r_exes exec (new_result F) in
        let (full, fits) = widths in
        let (cells, got, len) =
          sample_cells-length F P st col c.width run exec st.nr_threads 0
            (λ j ge lt. fits exec j h (omega arith)) in
        (
          result_cells F P c exec r ++ cells ++ (endl ∷ []),
          rw got refl,
          omega (
            arith,
            length-result_cells c exec r (cells ++ (endl ∷ [])) f (row-Fits exec h) digits cv,
            len (record f { is_left = false; width = 0; is_scientific = true }),
            accumulate-sum_from F P 0 c.width,
            ap (λ n. sum_from F P c.width n 0) full,
          ),
        )
