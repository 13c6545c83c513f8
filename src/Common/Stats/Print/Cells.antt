-- ===== src/Common/Stats/Print/Cells.antt =====
-- common/stats/stats.cpp: the texts of single cells, and the columns that hold them.
use shm_sync.Prelude.{
  ℕ, zero, suc, ◌+◌, ◌^◌, ◌≤◌, ◌<◌, ◌≡◌, true, false, some, List, [], ◌∷◌, ◌++◌, length,
  length-append, get_or, take, refl, ap, arith,
}
use native.Mathlib.Nat.{le_refl, le_trans}
use shm_sync.Common.Collector.{Collector}
use shm_sync.Common.Stats.Samples.{Stats}
use shm_sync.Common.Stats.Stream.{
  Item, Format, emit, endl, num, right, setw, dbl, scientific, decimal, padded,
}
use shm_sync.Common.Stats.Stream.Lengths.{length-padded, length-unpadded, length-decimal}
use shm_sync.Common.Stats.Summary.{Floats, Result, accumulate}
use shm_sync.Common.Stats.Widths.{Printer, Exact, sample_at, num_width, widest}
use shm_sync.Common.Stats.Widths.Columns.{Fits, Fits-mono, widest-Fits}
use shm_sync.Common.Stats.Print.{sample_cells, blank, widest_of, at_least, print_sep}

-- The format behind a cell.
abbrev pub behind : Format → Format
behind f = record f { is_left = false; width = 0 }

module _ (F : Floats) (P : Printer F.Double) where
  -- A number that fits takes the width of its column, and a blank follows.
  pub length-cell :
      (n w : ℕ) (rest : List (Item F.Double)) (f : Format)
      → Fits n w
      → length (emit P.show (right ∷ setw w ∷ num n ∷ blank F P ∷ rest) f).0
        ≡ w + 1 + length (emit P.show rest (behind f)).0
  unfolding emit
  length-cell n w rest f fits = omega (
    arith,
    length-append (padded false w (decimal n)) _,
    length-padded false w (decimal n) (length-decimal n w fits.0 fits.1),
  )

  -- The widths from thread `thr` on.
  abbrev pub sum_from : List ℕ → ℕ → ℕ → ℕ
  sum_from width zero thr = 0
  sum_from width (suc todo) thr = get_or width thr 0 + sum_from width todo (suc thr)

  sum_from-cons :
      (x : ℕ) (xs : List ℕ) (todo thr : ℕ) → sum_from (x ∷ xs) todo (suc thr) ≡ sum_from xs todo thr
  sum_from-cons x xs zero thr = refl
  sum_from-cons x xs (suc todo) thr =
      ap (λ (t : ℕ). get_or xs thr 0 + t) (sum_from-cons x xs todo (suc thr))

  pub accumulate-sum_from :
      (acc : ℕ) (xs : List ℕ) → accumulate (λ a x. a + x) acc xs ≡ acc + sum_from xs (length xs) 0
  accumulate-sum_from acc [] = omega arith
  accumulate-sum_from acc (x ∷ xs) =
      omega (arith, accumulate-sum_from (acc + x) xs, sum_from-cons x xs (length xs) 0)

  -- Without color no call of `includes` is made, and the cells of a row take their columns.
  pub sample_cells-length :
      (st : Stats) (col : Collector) (width : List ℕ) (run exec todo thr : ℕ)
      → ((j : ℕ) → thr ≤ j → j < thr + todo → Fits (sample_at P st run exec j) (get_or width j 0))
      → (cells : List (Item F.Double)) × (sample_cells F P false st col width run exec todo thr
          ≡ some cells)
        × ((f : Format)
            → length (emit P.show (cells ++ (endl ∷ [])) f).0 ≡ sum_from width todo thr + todo + 1)
  unfolding sample_cells
  sample_cells-length st col width run exec zero thr fits = ([], refl, λ f. unfold emit in refl)
  sample_cells-length st col width run exec (suc todo) thr fits =
      let (cells, run_it, len) =
        sample_cells-length st col width run exec todo (suc thr)
          (λ j h k. fits j (omega arith) (omega arith)) in
      (
        right ∷ setw (get_or width thr 0) ∷ num (sample_at P st run exec thr) ∷ blank F P ∷ cells,
        rw run_it refl,
        λ f. omega (
          arith,
          length-cell (sample_at P st run exec thr) (get_or width thr 0) (cells ++ (endl ∷ [])) f
              (fits thr (omega arith) (omega arith)),
          len (behind f),
        ),
      )

  -- A separator has the given number of characters and ends the line.
  pub length-print_sep :
      (cols sep : ℕ) (f : Format)
      → f.width ≡ 0
      → length (emit P.show (print_sep F P cols sep) f).0 ≡ cols + 1
  unfolding print_sep emit
  length-print_sep zero sep f h = omega arith
  length-print_sep (suc cols) sep f h = omega (
    arith,
    length-append (padded f.is_left f.width (sep ∷ []))
        (emit P.show (print_sep F P cols sep) (record f { width = 0 })).0,
    length-unpadded f.is_left f.width (sep ∷ []) h,
    length-print_sep cols sep (record f { width = 0 }) refl,
  )

  module _ (exact : Exact P) (field : Result F.Double → ℕ) where
    -- The fold only widens.
    widen-grows :
        (results : List (Result F.Double)) (w count : ℕ) (d : Result F.Double)
        → ((i : ℕ) → i < count → field (get_or results i d) < 2 ^ 53)
        → w ≤ accumulate (λ v r. widest P v (num_width P (P.of (field r)))) w (take count results)
    widen-grows results w zero d small = le_refl w
    widen-grows [] w (suc count) d small = le_refl w
    widen-grows (r ∷ results) w (suc count) d small =
        le_trans (widest-Fits P exact w (field r) (small 0 (omega arith))).1
          (widen-grows results _ count d (λ i lt. small (suc i) (omega arith)))

    widen-Fits :
        (results : List (Result F.Double)) (w count i : ℕ) (d : Result F.Double)
        → ((i : ℕ) → i < count → field (get_or results i d) < 2 ^ 53)
        → i < count
        → i < length results
        → Fits
            (field (get_or results i d))
            (accumulate (λ v r. widest P v (num_width P (P.of (field r)))) w (take count results))
    widen-Fits results w zero i d small lt in_range = absurd (omega arith)
    widen-Fits [] w (suc count) i d small lt in_range = absurd (omega arith)
    widen-Fits (r ∷ results) w (suc count) zero d small lt in_range =
        Fits-mono _ _ _ (widen-grows results _ count d (λ i lt'. small (suc i) (omega arith)))
          (widest-Fits P exact w (field r) (small 0 (omega arith))).0
    widen-Fits (r ∷ results) w (suc count) (suc i) d small lt in_range =
        widen-Fits results _ count i d (λ j lt'. small (suc j) (omega arith)) (omega arith)
          (omega arith)

    -- Every result's field fits into the column measured for it.
    pub column-Fits :
        (least : ℕ) (results : List (Result F.Double)) (count i : ℕ) (d : Result F.Double)
        → ((i : ℕ) → i < count → field (get_or results i d) < 2 ^ 53)
        → i < count
        → i < length results
        → Fits (field (get_or results i d)) (at_least F P least (widest_of F P field count results))
    column-Fits least results count i d small lt in_range =
        Fits-mono _ (widest_of F P field count results) _ (ground arith)
          (widen-Fits results 0 count i d small lt in_range)

  -- A number in scientific notation with no width of its own, and a blank.
  pub length-scientific_cell :
      (d : F.Double) (rest : List (Item F.Double)) (f : Format)
      → f.width ≡ 0
      → f.digits ≡ 3
      → length (P.show true 3 d) ≡ 9
      → length (emit P.show (right ∷ scientific ∷ dbl d ∷ blank F P ∷ rest) f).0
        ≡ 10
          + length
              (emit P.show rest (record f { is_left = false; is_scientific = true; width = 0 })).0
  unfolding emit
  length-scientific_cell d rest f width digits nine = omega (
    arith,
    length-append (padded false f.width (P.show true f.digits d)) _,
    length-unpadded false f.width (P.show true f.digits d) width,
    ap (λ k. length (P.show true k d)) digits,
    nine,
  )

  -- A number that fits at the end of a line.
  pub length-last_cell :
      (d : F.Double) (w : ℕ) (f : Format)
      → length (P.show f.is_scientific f.digits d) ≤ w
      → length (emit P.show (right ∷ setw w ∷ dbl d ∷ endl ∷ []) f).0 ≡ w + 1
  unfolding emit
  length-last_cell d w f fits =
      let t = P.show f.is_scientific f.digits d in
      omega (arith, length-append (padded false w t) (b'\n' ∷ []), length-padded false w t fits)
