-- ===== src/Common/Timer/Tests.antt =====
-- A clock of 100 ticks per second, and 12 million loops from tick to tick.
use shm_sync.Common.Timer.Calibrate.{
  calibrate_delay, first_loop, next_trial, recalibrate, chop_loop,
}
use shm_sync.Common.Timer.Calibrate.Ends.{calibrate_delay_near}
use shm_sync.Prelude.{ℕ, some, ◌<◌, ◌/◌, ◌+◌, ◌-◌, ◌*◌, ◌^◌, ◌≤◌, ◌≡◌, refl, arith}
use shm_sync.Common.Timer.{delay_loop, dec_loop, useful_work_ns}
use shm_sync.Common.Timer.Delay.{useful_work_ns_bounds}

-- No loop at all still takes one `dec`, which leaves the largest number in the register.
no_loops : delay_loop 0 ≡ (2 ^ 64 - 1, 1)
unfolding delay_loop dec_loop
no_loops = refl

useful_work_ns_bounds_example :
    let loops = useful_work_ns 100 12_000_000 100_000 in
    (100_000 * (12_000_000 * 100) ≤ loops * 10 ^ 9)
    × (loops * 2 ^ 32 ≤ 5 * (100_000 * (12_000_000 * 100)) + 2 * 2 ^ 32)
    × (useful_work_ns 100 12_000_000 (100_000 + 2 ^ 30) ≡ loops)
useful_work_ns_bounds_example =
    useful_work_ns_bounds 100 12_000_000 100_000 (omega arith) (omega arith) (omega arith)

calibrate_delay_near_example :
    (lpj : ℕ) × (calibrate_delay 12_000_000 24 12_000_000 12_000_000 ≡ some lpj)
    × (lpj < 12_000_000)
    × (12_000_000 ≤ lpj + lpj / 128 + 64)
calibrate_delay_near_example = calibrate_delay_near 12_000_000 (omega arith) (omega arith)

-- All jiffies have a million loops.
even : calibrate_delay 100 24 1_000_000 1_000_000 ≡ some 995_328
unfolding calibrate_delay next_trial first_loop recalibrate chop_loop
even = refl
