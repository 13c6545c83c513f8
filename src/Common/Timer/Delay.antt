-- ===== src/Common/Timer/Delay.antt =====
-- common/timer/timer_x86.cpp: how long the delays are, in loops.
use shm_sync.Prelude.{ℕ, zero, suc, ◌+◌, ◌*◌, ◌/◌, ◌%◌, ◌^◌, ◌≤◌, ◌<◌, ◌≡◌, refl, ap, arith, dec_lt}
use shm_sync.Common.Timer.{
  u64, u32, mull, dec_loop, delay_loop, const_udelay, useful_work_us, useful_work_ns,
}

dec_loop-count : (r : ℕ) → dec_loop r ≡ (0, r)
unfolding dec_loop
dec_loop-count zero = refl
dec_loop-count (suc r) = cc (dec_loop-count r)

-- Every unit of the argument is one `dec`, and there is one more.
delay_loop-count : (loops : ℕ) → (delay_loop loops).1 ≡ loops + 1
unfolding delay_loop
delay_loop-count loops = omega (arith, ap (λ (p : ℕ × ℕ). p.1) (dec_loop-count loops))

-- With `a` and `b` below 2 ^ 32 the argument of `delay_loop` is one more than their product's
-- upper half.
mull-small : (a b : ℕ) → a < 2 ^ 32 → b < 2 ^ 32 → mull (u64 a) (u64 b) ≡ a * b / 2 ^ 32
mull-small a b h k =
    let e : u32 (u64 a) ≡ a = omega arith in let f : u32 (u64 b) ≡ b = omega arith in rw (e, f) refl

mul_mono : (a b k : ℕ) → a ≤ b → a * k ≤ b * k
mul_mono a b k h = grind arith

mul-small : (a b : ℕ) → a < 2 ^ 32 → b < 2 ^ 32 → a * b < 2 ^ 64
mul-small a b h k = elim (dec_lt 0 a) [
  | yes pos ↦ omega (arith, mul_mono a (2 ^ 32) b (omega arith))
  | no z ↦ let e : a ≡ 0 = omega arith in rw e (omega arith)
]

const_udelay-small :
    (hz lpj x : ℕ)
    → x * 4 < 2 ^ 32
    → lpj * (hz / 4) < 2 ^ 32
    → const_udelay hz lpj x ≡ x * 4 * (lpj * (hz / 4)) / 2 ^ 32 + 1
unfolding const_udelay
const_udelay-small hz lpj x h k =
    let e = mull-small (x * 4) (lpj * (hz / 4)) h k in
    let f = mul-small (x * 4) (lpj * (hz / 4)) h k in rw e (omega arith)

-- The loops of a delay by `n` units at `c` per unit: 2 ^ 32 times the upper half of the product is
-- near `c * n` times the loops of a second.
module _ (hz lpj n c : ℕ) (quarter : hz % 4 ≡ 0) (short : n * c * 4 < 2 ^ 32)
    (speed : lpj * (hz / 4) < 2 ^ 32) where
  abbrev product : ℕ
  product = n * (lpj * (hz / 4))

  second : lpj * hz ≡ 4 * (lpj * (hz / 4))
  second = let e : hz ≡ 4 * (hz / 4) = omega arith in grind (arith, ap (λ (t : ℕ). lpj * t) e)

  asked : n * (lpj * hz) ≡ 4 * product
  asked = rw second (grind arith)

  reorder : n * c * 4 * (lpj * (hz / 4)) ≡ 4 * (c * product)
  reorder = grind arith

  pub decs : (delay_loop (const_udelay hz lpj (u64 (n * c)))).1 ≡ 4 * (c * product) / 2 ^ 32 + 2
  decs =
      let e : u64 (n * c) ≡ n * c = omega arith in
      omega (
        arith,
        delay_loop-count (const_udelay hz lpj (u64 (n * c))),
        ap (const_udelay hz lpj) e,
        const_udelay-small hz lpj (n * c) short speed,
        ap (λ (t : ℕ). t / 2 ^ 32) reorder,
      )

-- The product is taken modulo 2 ^ 32.
useful_work_ns_wraps :
    (hz lpj nsecs : ℕ) → useful_work_ns hz lpj (nsecs + 2 ^ 30) ≡ useful_work_ns hz lpj nsecs
unfolding useful_work_ns const_udelay
useful_work_ns_wraps hz lpj nsecs =
    let e : u32 (u64 (u64 ((nsecs + 2 ^ 30) * 5) * 4)) ≡ u32 (u64 (u64 (nsecs * 5) * 4)) =
      omega arith in
    rw e refl

-- If neither the nanoseconds nor the calibrated speed is too large for 32 bits, `useful_work_ns`
-- runs at least the loops that `loops_per_jiffy` says the time takes, and at most 2 more than that
-- scaled by 5 over 2 ^ 32 / 10 ^ 9. But 2 ^ 30 nanoseconds more change nothing.
pub useful_work_ns_bounds :
    (hz lpj nsecs : ℕ)
    → hz % 4 ≡ 0
    → nsecs * 5 * 4 < 2 ^ 32
    → lpj * (hz / 4) < 2 ^ 32
    → let loops = useful_work_ns hz lpj nsecs in
      (nsecs * (lpj * hz) ≤ loops * 10 ^ 9)
      × (loops * 2 ^ 32 ≤ 5 * (nsecs * (lpj * hz)) + 2 * 2 ^ 32)
      × (useful_work_ns hz lpj (nsecs + 2 ^ 30) ≡ loops)
unfolding useful_work_ns
useful_work_ns_bounds hz lpj nsecs quarter short speed =
    let e = decs hz lpj nsecs 5 quarter short speed in
    let f = asked hz lpj nsecs 5 quarter short speed in
    (omega (arith, e, f), omega (arith, e, f), useful_work_ns_wraps hz lpj nsecs)

-- The same for microseconds, with the factor 4295 over 2 ^ 32 / 10 ^ 6.
useful_work_us_bounds :
    (hz lpj usecs : ℕ)
    → hz % 4 ≡ 0
    → usecs * 0x10c7 * 4 < 2 ^ 32
    → lpj * (hz / 4) < 2 ^ 32
    → let loops = useful_work_us hz lpj usecs in
      (usecs * (lpj * hz) ≤ loops * 10 ^ 6)
      × (loops * 2 ^ 32 ≤ 0x10c7 * (usecs * (lpj * hz)) + 2 * 2 ^ 32)
unfolding useful_work_us
useful_work_us_bounds hz lpj usecs quarter short speed =
    let e = decs hz lpj usecs 0x10c7 quarter short speed in
    let f = asked hz lpj usecs 0x10c7 quarter short speed in
    (omega (arith, e, f), omega (arith, e, f))
