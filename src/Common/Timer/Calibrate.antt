-- ===== src/Common/Timer/Calibrate.antt =====
-- common/timer/timer_x86.cpp: `calibrate_delay`. A clock tick is seen behind `delay_loop(n)` that
-- starts right behind the last tick if `n` is at least the loops of a jiffy. The first jiffy may
-- have another length than those after it. Waiting for a tick takes no step.
mod Chop
mod Trials
pub mod Ends
use shm_sync.Prelude.{
  ℕ, zero, suc, ◌+◌, ◌-◌, ◌*◌, ◌/◌, ◌%◌, ◌^◌, ltb, leb, ◌==◌, Bool, true, false, if◌then◌else◌,
  Option, none, some, ◌>>=◌,
}
use shm_sync.Common.Timer.{u64}

abbrev pub lps_prec : ℕ
lps_prec = 8

-- `1 << 12`, the first value of `lpj`.
abbrev pub first_lpj : ℕ
first_lpj = 4096

-- The counters of the first loop, of type `int`.
pub record Trial : Type 0 where
  pub trial : ℕ
  pub band : ℕ
  pub trial_in_band : ℕ

-- An `int` that is not negative; `none` is an overflow.
abbrev pub int : ℕ → Option ℕ
int x = if ltb x (2 ^ 31) then some x else none

-- A round of the first loop up to its delay: `++trial_in_band`, the test against `1 << band` and
-- what it guards. `trial += band` follows the delay.
unfoldable pub next_trial : Trial → Option Trial
next_trial t = do
  trial_in_band ← int (t.trial_in_band + 1)
  limit ← int (2 ^ t.band)
  let full = trial_in_band == limit
  let band = if full then t.band + 1 else t.band
  trial ← int (t.trial + band)
  some (record { trial = trial; band = band; trial_in_band = if full then 0 else trial_in_band })

-- The first loop, until the loops of all rounds fill the jiffy: `trial` and `band` behind it.
-- `none` is an overflow, or more rounds than the number given.
unfoldable pub first_loop : ℕ → (jiffy : ℕ) → Trial → Option (ℕ × ℕ)
first_loop zero jiffy t = none
first_loop (suc fuel) jiffy t = do
  t' ← next_trial t
  let rest = first_loop fuel jiffy t'
  if leb jiffy (first_lpj * t'.trial) then some (t'.trial - t'.band, t'.band) else rest

abbrev pub sub_u64 : ℕ → ℕ → ℕ
sub_u64 a b = (a + 2 ^ 64 - b) % 2 ^ 64

-- `lpj += loopadd`, and back if the tick came.
abbrev pub adjust : (jiffy lpj loopadd : ℕ) → ℕ
adjust jiffy lpj loopadd =
    let up = u64 (lpj + loopadd) in if leb jiffy up then sub_u64 up loopadd else up

-- The loop `while (loopadd > chop_limit)`: `lpj` and `loopadd` behind it.
unfoldable pub chop_loop : ℕ → (jiffy chop_limit lpj loopadd : ℕ) → Option (ℕ × ℕ)
chop_loop zero jiffy chop_limit lpj loopadd =
    if ltb chop_limit loopadd then none else some (lpj, loopadd)
chop_loop (suc fuel) jiffy chop_limit lpj loopadd =
    let rest = chop_loop fuel jiffy chop_limit (adjust jiffy lpj loopadd) (loopadd / 2) in
    if ltb chop_limit loopadd then rest else some (lpj, loopadd)

-- Nothing was chopped off, so the jump back may be needed.
abbrev pub unchopped : (lpj_base loopadd_base lpj loopadd : ℕ) → Bool
unchopped lpj_base loopadd_base lpj loopadd =
    u64 (lpj + u64 (loopadd * 2)) == u64 (lpj_base + u64 (loopadd_base * 2))

-- From the label `recalibrate` on, with at most the given number of jumps to it:
-- `loops_per_jiffy`.
unfoldable pub recalibrate : (jumps jiffy lpj_base loopadd_base : ℕ) → Option ℕ
recalibrate zero jiffy lpj_base loopadd_base = do
  (lpj, loopadd) ← chop_loop 64 jiffy (lpj_base / 2 ^ lps_prec) lpj_base loopadd_base
  if unchopped lpj_base loopadd_base lpj loopadd then none else some lpj
recalibrate (suc jumps) jiffy lpj_base loopadd_base = do
  (lpj, loopadd) ← chop_loop 64 jiffy (lpj_base / 2 ^ lps_prec) lpj_base loopadd_base
  let again = recalibrate jumps jiffy lpj (u64 (loopadd_base * 4))
  if unchopped lpj_base loopadd_base lpj loopadd then again else some lpj

-- `calibrate_delay`, with enough rounds for the first loop and the jumps: `loops_per_jiffy`.
unfoldable pub calibrate_delay : (rounds jumps first_jiffy jiffy : ℕ) → Option ℕ
calibrate_delay rounds jumps first_jiffy jiffy = do
  (trial, band) ← first_loop rounds first_jiffy (record { trial = 0; band = 0; trial_in_band = 0 })
  recalibrate jumps jiffy (u64 (first_lpj * trial)) (u64 (first_lpj * band))
