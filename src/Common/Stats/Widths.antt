-- ===== src/Common/Stats/Widths.antt =====
-- common/stats/stats.cpp: the widths of columns, `numWidth` and `computeSampleWidths`.
pub mod Columns
use shm_sync.Prelude.{
  ℕ, zero, suc, ◌+◌, ◌*◌, ◌%◌, ◌^◌, ◌<◌, ◌≡◌, ℤ, pos, negsuc, int_suc, Bool, true, false,
  if◌then◌else◌, List, get_or, set, replicate,
}
use shm_sync.Common.Stats.Samples.{u32, Stats}
use shm_sync.Common.Stats.Summary.{larger}

-- The operations on `double` that the printing uses. `of n` is the integer `n` as a double,
-- `show` its text, in scientific notation or not, to a precision.
pub record Printer (D : Type 0) : Type 0 where
  pub of : ℕ → D
  pub is_zero : D → Bool
  pub is_negative : D → Bool
  pub negate : D → D
  pub floor_log10 : D → ℤ
  pub show : Bool → ℕ → D → List ℕ

module _ {D : Type 0} (P : Printer D) where
  pub num_width : D → ℤ
  num_width n =
      if P.is_zero n
      then pos 1
      else int_suc (P.floor_log10 (if P.is_negative n then P.negate n else n))

  -- `std::max` of a width, which is not negative, and an `int`.
  abbrev pub widest : ℕ → ℤ → ℕ
  widest w (pos n) = larger w n
  widest w (negsuc n) = w

  -- `sample[run_offset + exec * nr_threads + thr]`.
  abbrev pub sample_at : Stats → ℕ → ℕ → ℕ → ℕ
  sample_at st run exec thr =
      let run_offset = u32 (u32 (run * st.nr_executions) * st.nr_threads) in
      get_or st.sample (u32 (u32 (run_offset + u32 (exec * st.nr_threads)) + thr)) 0

  -- The inner loop of `computeSampleWidths`, from thread `thr`, `todo` threads to go.
  pub widen_from : Stats → (run exec : ℕ) → ℕ → ℕ → List ℕ → List ℕ
  widen_from st run exec zero thr width = width
  widen_from st run exec (suc todo) thr width =
      widen_from st run exec todo (suc thr)
        (set width thr (widest (get_or width thr 0) (num_width (P.of (sample_at st run exec thr)))))

  -- The outer loop, from execution `exec`.
  pub widen_rows : Stats → ℕ → ℕ → ℕ → List ℕ → List ℕ
  widen_rows st run zero exec width = width
  widen_rows st run (suc todo) exec width =
      widen_rows st run todo (suc exec) (widen_from st run exec st.nr_threads 0 width)

  -- `width` is the array of `nr_threads` elements.
  pub compute_sample_widths : Stats → List ℕ → ℕ → Bool → List ℕ
  compute_sample_widths st width run initialize =
      widen_rows st run st.nr_executions 0 (if initialize then replicate st.nr_threads 0 else width)

-- What `log10` and the tests on `double` do for the integers that a double holds exactly. The
-- rounding of `log10` may make the number of digits too large, never too small.
pub record Exact {D : Type 0} (P : Printer D) : Type 0 where
  pub nought : P.is_zero (P.of 0) ≡ true
  pub nonzero : (n : ℕ) → 0 < n → n < 2 ^ 53 → P.is_zero (P.of n) ≡ false
  pub positive : (n : ℕ) → n < 2 ^ 53 → P.is_negative (P.of n) ≡ false
  pub log10 :
      (n : ℕ) → 0 < n → n < 2 ^ 53 → (k : ℕ) × (P.floor_log10 (P.of n) ≡ pos k) × (n < 10 ^ suc k)
