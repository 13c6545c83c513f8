-- ===== src/Common/Stats/Dump/Raw.antt =====
-- common/stats/stats.cpp: `dumpRawData`, all samples in one file.
use shm_sync.Prelude.{
  ℕ, zero, suc, ◌+◌, ◌^◌, ◌≤◌, ◌<◌, ◌≡◌, ◌==◌, true, false, if◌then◌else◌, Option, none, some, List,
  [], ◌∷◌, ◌++◌, length, get_or, arith, ℕ_discrete,
}
use native.Mathlib.Nat.{le_refl, le_trans}
use shm_sync.Common.Stats.Samples.{Stats, u32, exec_offset}
use shm_sync.Common.Stats.Stream.{Item, opened, emit, str, num, setw, endl, chars}
use shm_sync.Common.Stats.Widths.{Printer, Exact, sample_at, compute_sample_widths}
use shm_sync.Common.Stats.Widths.Columns.{Fits, Fits-mono, compute_sample_widths_lem}

module _ {D : Type 0} (P : Printer D) where
  -- The loop over the runs that measures the columns, from run `run`.
  pub raw_widths_from : Stats → (todo run : ℕ) → List ℕ → List ℕ
  raw_widths_from st zero run width = width
  raw_widths_from st (suc todo) run width =
      raw_widths_from st todo (suc run)
        (compute_sample_widths P st width run (if run == 0 then true else false))

  -- The cells of a line from thread `tr`.
  pub raw_cells : Stats → List ℕ → (run exec todo tr : ℕ) → List (Item D)
  raw_cells st width run exec zero tr = []
  raw_cells st width run exec (suc todo) tr =
      setw (get_or width tr 0)
      ∷ num (get_or st.sample (u32 (exec_offset st run exec + tr)) 0)
      ∷ (if tr + 1 == st.nr_threads then endl else str (b' ' ∷ []))
      ∷ raw_cells st width run exec todo (suc tr)

  pub raw_execs : Stats → List ℕ → (run todo exec : ℕ) → List (Item D)
  raw_execs st width run zero exec = []
  raw_execs st width run (suc todo) exec =
      (str (chars "# EXE: ") ∷ num exec ∷ endl ∷ raw_cells st width run exec st.nr_threads 0)
      ++ raw_execs st width run todo (suc exec)

  pub raw_runs : Stats → List ℕ → (todo run : ℕ) → List (Item D)
  raw_runs st width zero run = []
  raw_runs st width (suc todo) run =
      (str (chars "# RUN: ") ∷ num run ∷ endl ∷ raw_execs st width run st.nr_executions 0)
      ++ raw_runs st width todo (suc run)

  abbrev raw_name : Option (List ℕ) → List ℕ
  raw_name none = chars "dump.txt"
  raw_name (some f_name) = f_name

  -- The name of the file and its text; `garbage` is the array of widths before it is set.
  pub dump_raw_data : Stats → List ℕ → Option (List ℕ) → List ℕ × List ℕ
  dump_raw_data st garbage f_name =
      let width = raw_widths_from st st.nr_runs 0 garbage in
      (raw_name f_name, (emit P.show (raw_runs st width st.nr_runs 0) opened).0)

  module _ (exact : Exact P) (st : Stats)
      (small : (run exec thr : ℕ) → sample_at P st run exec thr < 2 ^ 53) where
    raw_widths-grows :
        (todo run : ℕ) (width : List ℕ) (thr : ℕ)
        → length width ≡ st.nr_threads
        → 0 < run
        → (length (raw_widths_from st todo run width) ≡ st.nr_threads)
          × (get_or width thr 0 ≤ get_or (raw_widths_from st todo run width) thr 0)
    unfolding raw_widths_from
    raw_widths-grows zero run width thr full later = (full, le_refl _)
    raw_widths-grows (suc todo) run width thr full later =
        let again : (run == 0) ≡ false = ground arith in
        let (full', fits, grows, reached) =
          compute_sample_widths_lem P exact st run (small run) width false full in
        let (full'', further) = raw_widths-grows todo (suc run) _ thr full' (omega arith) in
        rw again (full'', le_trans (grows thr) further)

    raw_widths-Fits :
        (todo run : ℕ) (width : List ℕ) (r exec thr : ℕ)
        → length width ≡ st.nr_threads
        → run ≤ r
        → r < run + todo
        → exec < st.nr_executions
        → thr < st.nr_threads
        → Fits (sample_at P st r exec thr) (get_or (raw_widths_from st todo run width) thr 0)
    unfolding raw_widths_from
    raw_widths-Fits zero run width r exec thr full low high h k = absurd (omega arith)
    raw_widths-Fits (suc todo) run width r exec thr full low high h k =
        let (full', fits, grows, reached) =
          compute_sample_widths_lem P exact st run (small run) width
            (if run == 0 then true else false) full in
        elim (ℕ_discrete run r) [
          | yes here ↦
              let (full'', further) = raw_widths-grows todo (suc run) _ thr full' (omega arith) in
              Fits-mono _ _ _ further (rw (← here) (fits exec thr h k))
          | no other ↦
              raw_widths-Fits todo (suc run) _ r exec thr full' (omega arith) (omega arith) h k
        ]

    -- The widths that `dumpRawData` measures hold the samples of all runs, whatever the array held
    -- before, if a double holds the samples exactly: only run 0 initializes the array.
    pub raw_widths_fit :
        (garbage : List ℕ) (run exec thr : ℕ)
        → length garbage ≡ st.nr_threads
        → run < st.nr_runs
        → exec < st.nr_executions
        → thr < st.nr_threads
        → Fits
            (sample_at P st run exec thr)
            (get_or (raw_widths_from st st.nr_runs 0 garbage) thr 0)
    raw_widths_fit garbage run exec thr full h k l =
        raw_widths-Fits st.nr_runs 0 garbage run exec thr full (omega arith) (omega arith) k l
