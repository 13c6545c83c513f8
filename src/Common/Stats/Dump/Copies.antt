-- ===== src/Common/Stats/Dump/Copies.antt =====
-- common/stats/stats.cpp: `dumpData` with the name of a file shows the same on standard output as
-- in the file.
use mathlib.Core.List.{append_assoc, append-nil}
use shm_sync.Prelude.{
  ℕ, zero, suc, ◌+◌, ◌-◌, ◌≤◌, ◌<◌, ◌≡◌, ltb, ◌||◌, Bool, true, false, if◌then◌else◌, Option, some,
  List, [], ◌∷◌, ◌++◌, map, length, tabulate, refl, sym, ap, ◌∙◌, Bool-cases, inl, inr,
}
use shm_sync.Common.Collector.{Collector}
use shm_sync.Common.Collector.Laws as CollectorLaws
use shm_sync.Common.Stats.Samples.{Stats}
use shm_sync.Common.Stats.Samples.Layout.{IsValid}
use shm_sync.Common.Stats.Stream.{Format, opened, emit, str, chars}
use shm_sync.Common.Stats.Stream.Lengths.{emit-append}
use shm_sync.Common.Stats.Summary.{Floats}
use shm_sync.Common.Stats.Aggregate.{overall}
use shm_sync.Common.Stats.Aggregate.Reference.{reference_run, aggregate_statistics-eq}
use shm_sync.Common.Stats.Widths.{Printer}
use shm_sync.Common.Stats.Overview.{dump_all_runs}
use shm_sync.Common.Stats.Print.{Out, print_sep}
use shm_sync.Common.Stats.Print.Plain.{print_sep-format, plain_details}
use shm_sync.Common.Stats.Dump.{
  Stream, Console, send, send_both, header, dump_runs, delete_dump, show_overview, open_file,
  dump_data,
}

module _ (F : Floats) (P : Printer F.Double) where
  keeps-append :
      (xs ys : Out F P)
      → (emit P.show xs opened).1 ≡ opened
      → (emit P.show ys opened).1 ≡ opened
      → (emit P.show (xs ++ ys) opened).1 ≡ opened
  keeps-append xs ys h k =
      ap (λ (p : List ℕ × Format). p.1) (emit-append P.show xs ys opened)
      ∙ ap (λ f. (emit P.show ys f).1) h
      ∙ k

  header-format : (f_name : List ℕ) → (emit P.show (header F P false f_name) opened).1 ≡ opened
  unfolding emit
  header-format f_name =
      let line = print_sep F P (length f_name + 4) b'x' in
      let kept = print_sep-format F P (length f_name + 4) b'x' in
      let name : Out F P = str (chars "x ") ∷ str f_name ∷ str (chars " x\n") ∷ [] in
      keeps-append (line ++ name ++ line) []
        (keeps-append (line ++ name) line (keeps-append line name kept refl) kept) refl

  -- Standard output shows what the file holds behind `before`, in the same format.
  abbrev Together : List ℕ → Console F.Double → Type 0
  Together before con =
      (file : Stream) × (con.ofl ≡ some file)
      × (con.cout.content ≡ before ++ file.content)
      × (con.cout.format ≡ file.format)

  abbrev IsOpen : Console F.Double → Type 0
  IsOpen con = (file : Stream) × (con.ofl ≡ some file)

  send_both-IsOpen :
      (items : Out F P) (con : Console F.Double)
      → IsOpen con
      → IsOpen (send_both F P items items con)
  send_both-IsOpen items con (file, is_open) = rw is_open (send F P items file, refl)

  send_both-Together :
      (before : List ℕ) (items : Out F P) (con : Console F.Double)
      → Together before con
      → Together before (send_both F P items items con)
  send_both-Together before items con (file, is_open, same, format) = rw is_open (
    send F P items file,
    refl,
    rw (format, same) (append_assoc before file.content (emit P.show items file.format).0),
    rw format refl,
  )

  dump_runs-Together :
      (before : List ℕ) (st : Stats) (col : Collector) (todo run : ℕ) (con : Console F.Double)
      → Together before con
      → (con' : Console F.Double) × (dump_runs F P false st col todo run con ≡ some con')
        × Together before con'
  unfolding dump_runs
  dump_runs-Together before st col zero run con h = (con, refl, h)
  dump_runs-Together before st col (suc todo) run con h =
      let (items, e) = plain_details F P st con.res_exec con.res_run run col in
      let (con', e', h') =
        dump_runs-Together before st col todo (suc run) (send_both F P items items con)
          (send_both-Together before items con h) in
      (con', rw e e', h')

  show_overview-Together :
      (before : List ℕ) (st : Stats) (ovw_only : Bool) (con : Console F.Double)
      → Together before con
      → Together before (show_overview F P ovw_only st con)
  show_overview-Together before st ovw_only con h =
      elim (Bool-cases (ovw_only || ltb 1 st.nr_runs)) [
        | inl e ↦ rw e (send_both-Together before (dump_all_runs F P st con.res_run) con h)
        | inr e ↦ rw e h
      ]

  opened-Together :
      (f_name : List ℕ) (con : Console F.Double)
      → con.cout.format ≡ opened
      → Together
          (con.cout.content ++ (emit P.show (header F P false f_name) opened).0)
          (open_file F P false (some f_name) con)
  opened-Together f_name con h = (
    record { content = []; format = opened },
    refl,
    rw h (sym (append-nil _)),
    rw h (header-format f_name),
  )

  details :
      (before : List ℕ) (st : Stats) (col : Collector) (ovw_only : Bool) (con : Console F.Double)
      → Together before con
      → (con' : Console F.Double) × ((if ovw_only
            then some con
            else dump_runs F P false st col st.nr_runs 0 con)
          ≡ some con')
        × Together before con'
  details before st col true con h = (con, refl, h)
  details before st col false con h = dump_runs-Together before st col st.nr_runs 0 con h

  runs_return :
      (st : Stats) (col : Collector) (todo run : ℕ) (con : Console F.Double)
      → (con' : Console F.Double) × (dump_runs F P false st col todo run con ≡ some con')
        × (IsOpen con → IsOpen con')
  unfolding dump_runs
  runs_return st col zero run con = (con, refl, λ h. h)
  runs_return st col (suc todo) run con =
      let (items, e) = plain_details F P st con.res_exec con.res_run run col in
      let (con', e', keeps) = runs_return st col todo (suc run) (send_both F P items items con) in
      (con', rw e e', λ h. keeps (send_both-IsOpen items con h))

  -- `dumpData` with the name of a file, when standard output is not colored and has the format of a
  -- stream that has just been opened, does not stop for a collector whose range lies within the
  -- threads and has a thread for each run: behind what it showed before, standard output shows the
  -- header with the name and then what the file holds, and no results are left for the next call.
  pub dump_data_copies :
      (memory : ℕ → Option (List ℕ)) (st : Stats) (ovw_only : Bool) (c : Collector)
      (f_name : List ℕ) (con : Console F.Double)
      → IsValid st
      → c.stop_index ≤ st.nr_threads
      → CollectorLaws.IsValid c
      → 0 < st.nr_executions
      → st.nr_runs ≤ c.stop_index - c.start_index
      → con.cout.format ≡ opened
      → (con' : Console F.Double) × (file : Stream) × (dump_data F P memory false st ovw_only
            (some c)
            (some f_name)
            con
          ≡ some con')
        × (con'.ofl ≡ some file)
        × (con'.cout.content
            ≡ con.cout.content ++ (emit P.show (header F P false f_name) opened).0 ++ file.content)
        × (con'.res_exec ≡ [])
        × (con'.res_run ≡ [])
  unfolding dump_data
  dump_data_copies memory st ovw_only c f_name con v within valid pos fits fresh =
      let (filled, aggregated) = aggregate_statistics-eq F st c v within valid pos fits in
      let new_exec = tabulate 0 st.nr_runs (reference_run F st c) in
      let start = record con {
        res_exec = con.res_exec ++ new_exec;
        res_run = con.res_run ++ map (overall F) new_exec;
      } in
      let before = con.cout.content ++ (emit P.show (header F P false f_name) opened).0 in
      let top = opened-Together f_name start fresh in
      let (detailed, run_it, h) =
        details before st filled ovw_only (open_file F P false (some f_name) start) top in
      let (file, is_open, same, format) = show_overview-Together before st ovw_only detailed h in
      (
        delete_dump F P (show_overview F P ovw_only st detailed),
        file,
        rw (aggregated, run_it) refl,
        is_open,
        same,
        refl,
        refl,
      )

  details_return :
      (st : Stats) (col : Collector) (ovw_only : Bool) (con : Console F.Double)
      → (con' : Console F.Double) × ((if ovw_only
            then some con
            else dump_runs F P false st col st.nr_runs 0 con)
          ≡ some con')
        × (IsOpen con → IsOpen con')
  details_return st col true con = (con, refl, λ h. h)
  details_return st col false con = runs_return st col st.nr_runs 0 con

  show_overview-IsOpen :
      (st : Stats) (ovw_only : Bool) (con : Console F.Double)
      → IsOpen con
      → IsOpen (show_overview F P ovw_only st con)
  show_overview-IsOpen st ovw_only con h = elim (Bool-cases (ovw_only || ltb 1 st.nr_runs)) [
    | inl e ↦ rw e (send_both-IsOpen (dump_all_runs F P st con.res_run) con h)
    | inr e ↦ rw e h
  ]

  -- The same from any format of standard output: there is a file, and no results are left.
  pub dump_data_returns :
      (memory : ℕ → Option (List ℕ)) (st : Stats) (ovw_only : Bool) (c : Collector)
      (f_name : List ℕ) (con : Console F.Double)
      → IsValid st
      → c.stop_index ≤ st.nr_threads
      → CollectorLaws.IsValid c
      → 0 < st.nr_executions
      → st.nr_runs ≤ c.stop_index - c.start_index
      → (con' : Console F.Double) × (file : Stream) × (dump_data F P memory false st ovw_only
            (some c)
            (some f_name)
            con
          ≡ some con')
        × (con'.ofl ≡ some file)
        × (con'.res_exec ≡ [])
        × (con'.res_run ≡ [])
  unfolding dump_data
  dump_data_returns memory st ovw_only c f_name con v within valid pos fits =
      let (filled, aggregated) = aggregate_statistics-eq F st c v within valid pos fits in
      let new_exec = tabulate 0 st.nr_runs (reference_run F st c) in
      let start = record con {
        res_exec = con.res_exec ++ new_exec;
        res_run = con.res_run ++ map (overall F) new_exec;
      } in
      let (detailed, run_it, keeps) =
        details_return st filled ovw_only (open_file F P false (some f_name) start) in
      let (file, is_open) =
        show_overview-IsOpen st ovw_only detailed
          (keeps (record { content = []; format = opened }, refl)) in
      (
        delete_dump F P (show_overview F P ovw_only st detailed),
        file,
        rw (aggregated, run_it) refl,
        is_open,
        refl,
        refl,
      )
