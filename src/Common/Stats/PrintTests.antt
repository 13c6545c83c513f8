-- ===== src/Common/Stats/PrintTests.antt =====
-- The tables for two threads, one execution and two scaling runs.
use native.Mathlib.Nat.{pow-succ'}
use shm_sync.Prelude.{
  ℕ, zero, suc, ◌+◌, ◌/◌, ◌^◌, ◌≤◌, ◌<◌, ◌≡◌, ◌==◌, ltb, pos, true, false, if◌then◌else◌, Option,
  none, some, List, [], ◌∷◌, ◌++◌, length, get_or, refl, arith, Bool-cases, inl, inr, ltb→ge,
}
use shm_sync.Common.Stats.Stream.{Item, Format, opened, emit, chars, decimal, decimal_from}
use shm_sync.Common.Stats.Summary.{Result}
use shm_sync.Common.Stats.Aggregate.{new_result}
use shm_sync.Common.Stats.Widths.{Printer, Exact}
use shm_sync.Common.Stats.Print.{columns, line_width, exec_row}
use shm_sync.Common.Stats.Print.Table.{Modest, exec_row_width}
use shm_sync.Common.Stats.Dump.{Stream, Console, header, dump_data}
use shm_sync.Common.Stats.Dump.Copies.{dump_data_copies}
use shm_sync.Common.Stats.Tests.{whole, entered, entered-IsValid, everyone, everyone-IsValid}

-- The digits of a number, less one.
log_from : ℕ → ℕ → ℕ
log_from zero n = 0
log_from (suc fuel) n = let rest = log_from fuel (n / 10) in if ltb n 10 then 0 else suc rest

log_from-enough : (fuel n : ℕ) → n ≤ fuel → n < 10 ^ suc (log_from fuel n)
unfolding log_from
log_from-enough zero n h = omega arith
log_from-enough (suc fuel) n h = elim (Bool-cases (ltb n 10)) [
  | inl e ↦ rw e (ground arith)
  | inr e ↦ rw e (
      omega (
        arith,
        ltb→ge n 10 e,
        log_from-enough fuel (n / 10) (omega (arith, ltb→ge n 10 e)),
        pow-succ' 10 (suc (log_from fuel (n / 10))),
      ))
]

-- Whole numbers for doubles. In scientific notation all look alike.
abbrev printer : Printer ℕ
printer = record {
  of = λ n. n;
  is_zero = λ n. n == 0;
  is_negative = λ n. false;
  negate = λ n. n;
  floor_log10 = λ n. pos (log_from n n);
  show = λ is_scientific digits n. if is_scientific then chars "9.999e+00" else decimal n;
}

printer-Exact : Exact printer
printer-Exact = record {
  nought = refl;
  nonzero = λ n h k. ground arith;
  positive = λ n h. refl;
  log10 = λ n h k. (log_from n n, refl, log_from-enough n n (omega arith));
}

twelve : decimal 1207 ≡ chars "1207"
unfolding decimal_from
twelve = refl

below : (i : ℕ) → get_or entered.sample i 0 < 2 ^ 53
below zero = omega arith
below (suc zero) = omega arith
below (suc (suc zero)) = omega arith
below (suc (suc (suc zero))) = omega arith
below (suc (suc (suc (suc i)))) = omega arith

abbrev middling : Result ℕ
middling = record { max = 8; mean = 6; stdev = 2; cv = 0; median = 8 }

middling-Modest : Modest middling
middling-Modest = omega arith

abbrev one_run : List (Result ℕ)
one_run = middling ∷ []

first-Modest : (exec : ℕ) → exec < 1 → Modest (get_or one_run exec (new_result whole))
first-Modest zero h = middling-Modest
first-Modest (suc exec) h = absurd (omega arith)

abbrev three_digits : Format
three_digits = record opened { digits = 3 }

exec_row_width_example :
    (row : List (Item ℕ)) × (exec_row whole printer false entered everyone
        (columns whole printer entered 1 one_run)
        1
        0
        middling
      ≡ some row)
    × (length (emit printer.show row three_digits).0
        ≡ line_width whole printer entered (columns whole printer entered 1 one_run) + 2)
exec_row_width_example =
    exec_row_width whole printer printer-Exact entered everyone 1 one_run refl (omega arith)
      (λ exec thr. below _) first-Modest 0 three_digits (omega arith) refl refl

abbrev before : Console ℕ
before = record {
  cout = record { content = chars "start\n"; format = opened };
  ofl = none;
  res_exec = [];
  res_run = [];
}

no_memory : ℕ → Option (List ℕ)
no_memory k = none

dump_data_copies_example :
    (con : Console ℕ) × (file : Stream) × (dump_data whole printer no_memory false entered true
        (some everyone)
        (some (chars "out"))
        before
      ≡ some con)
    × (con.ofl ≡ some file)
    × (con.cout.content
        ≡ chars "start\n"
          ++ (emit printer.show (header whole printer false (chars "out")) opened).0
          ++ file.content)
    × (con.res_exec ≡ [])
    × (con.res_run ≡ [])
dump_data_copies_example =
    dump_data_copies whole printer no_memory entered true everyone (chars "out") before
      entered-IsValid (omega arith) everyone-IsValid (omega arith) (omega arith) refl
