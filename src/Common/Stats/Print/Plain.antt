-- ===== src/Common/Stats/Print/Plain.antt =====
-- common/stats/stats.cpp: the tables without color.
use shm_sync.Prelude.{ℕ, zero, suc, false, some, List, [], get_or, ◌≡◌, refl}
use shm_sync.Common.Collector.{Collector}
use shm_sync.Common.Stats.Samples.{Stats}
use shm_sync.Common.Stats.Stream.{opened, emit}
use shm_sync.Common.Stats.Summary.{Floats, Result}
use shm_sync.Common.Stats.Widths.{Printer}
use shm_sync.Common.Stats.Print.{
  Out, Columns, print_sep, sample_cells, exec_rows, columns, dump_details_of_run,
}

module _ (F : Floats) (P : Printer F.Double) where
  pub print_sep-format : (cols sep : ℕ) → (emit P.show (print_sep F P cols sep) opened).1 ≡ opened
  unfolding print_sep emit
  print_sep-format zero sep = refl
  print_sep-format (suc cols) sep = print_sep-format cols sep

  plain_cells :
      (st : Stats) (col : Collector) (width : List ℕ) (run exec todo thr : ℕ)
      → (cells : Out F P) × (sample_cells F P false st col width run exec todo thr ≡ some cells)
  unfolding sample_cells
  plain_cells st col width run exec zero thr = ([], refl)
  plain_cells st col width run exec (suc todo) thr =
      let (cells, e) = plain_cells st col width run exec todo (suc thr) in rw e (_, refl)

  plain_rows :
      (st : Stats) (col : Collector) (c : Columns F P) (r_exes : List (Result F.Double))
      (run todo exec : ℕ)
      → (rows : Out F P) × (exec_rows F P false st col c r_exes run todo exec ≡ some rows)
  unfolding exec_rows
  plain_rows st col c r_exes run zero exec = ([], refl)
  plain_rows st col c r_exes run (suc todo) exec =
      let (cells, e) = plain_cells st col c.width run exec st.nr_threads 0 in
      let (rows, e') = plain_rows st col c r_exes run todo (suc exec) in rw (e, e') (_, refl)

  -- Without color `includes` is not called, so a run's details are always printed.
  pub plain_details :
      (st : Stats) (res_exec : List (List (Result F.Double))) (res_run : List (Result F.Double))
      (run : ℕ) (col : Collector)
      → (items : Out F P) × (dump_details_of_run F P false st res_exec res_run run col ≡ some items)
  unfolding dump_details_of_run
  plain_details st res_exec res_run run col =
      let (rows, e) =
        plain_rows st col (columns F P st run (get_or res_exec run [])) (get_or res_exec run []) run
          st.nr_executions 0 in
      rw e (_, refl)
