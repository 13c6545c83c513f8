-- ===== src/Common/Timer.antt =====
-- common/timer/timer_x86.cpp: the loops that pass the time between two calls of a benchmark.
-- `unsigned long` has 64 bits; `hz` is what `sysconf` tells of the clock ticks per second.
pub mod Delay
pub mod Calibrate
mod Tests
use shm_sync.Prelude.{ℕ, zero, suc, ◌+◌, ◌-◌, ◌*◌, ◌/◌, ◌%◌, ◌^◌}

abbrev pub u64 : ℕ → ℕ
u64 x = x % 2 ^ 64

abbrev pub u32 : ℕ → ℕ
u32 x = x % 2 ^ 32

-- The register and the number of `dec` instructions behind the loop `2: dec; jnz 2b`.
pub dec_loop : ℕ → ℕ × ℕ
dec_loop zero = (0, 0)
dec_loop (suc r) = (0, suc (dec_loop r).1)

-- `delay_loop`: the register at the end and the `dec` instructions run. The one at label 3 comes
-- last, behind the loop or without it.
pub delay_loop : ℕ → ℕ × ℕ
delay_loop loops = let (r, count) = dec_loop loops in (u64 (r + (2 ^ 64 - 1)), suc count)

-- The product that `mull` leaves in `edx`: the upper half of a product of 32-bit registers.
abbrev pub mull : ℕ → ℕ → ℕ
mull eax edx = u32 eax * u32 edx / 2 ^ 32

-- `__const_udelay`: the argument of `delay_loop`.
pub const_udelay : (hz loops_per_jiffy : ℕ) → ℕ → ℕ
const_udelay hz loops_per_jiffy xloops =
    u64 (mull (u64 (xloops * 4)) (u64 (loops_per_jiffy * (hz / 4))) + 1)

-- The `dec` instructions that the two delays run.
pub useful_work_us : (hz loops_per_jiffy : ℕ) → ℕ → ℕ
unfolding delay_loop const_udelay dec_loop
useful_work_us hz loops_per_jiffy usecs =
    (delay_loop (const_udelay hz loops_per_jiffy (u64 (usecs * 0x10c7)))).1

pub useful_work_ns : (hz loops_per_jiffy : ℕ) → ℕ → ℕ
unfolding delay_loop const_udelay dec_loop
useful_work_ns hz loops_per_jiffy nsecs =
    (delay_loop (const_udelay hz loops_per_jiffy (u64 (nsecs * 5)))).1
