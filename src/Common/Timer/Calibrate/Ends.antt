-- ===== src/Common/Timer/Calibrate/Ends.antt =====
-- common/timer/timer_x86.cpp: `calibrate_delay` ends, and how near its result is.
use native.Mathlib.Nat.{pow-succ', mul_assoc}
use shm_sync.Prelude.{
  ℕ, zero, suc, ◌+◌, ◌*◌, ◌/◌, ◌^◌, ◌≤◌, ◌<◌, ◌≡◌, inl, inr, ◌==◌, ==→eq, some, refl, sym, ap, ◌∙◌,
  arith, Bool-cases, dec_lt,
}
use shm_sync.Common.Timer.{u64}
use shm_sync.Common.Timer.Calibrate.{lps_prec, first_lpj, unchopped, recalibrate, calibrate_delay}
use shm_sync.Common.Timer.Calibrate.Trials.{first_loop-ends}
use shm_sync.Common.Timer.Calibrate.Chop.{Chopped, chop_loop-Chopped}

-- Without a wrap-around the test for a jump compares the sums.
unchopped-eq :
    (b a p q : ℕ)
    → b + 2 * a < 2 ^ 64
    → p + 2 * q < 2 ^ 64
    → unchopped b a p q ≡ (p + 2 * q == b + 2 * a)
unchopped-eq b a p q h k =
    let e : u64 (p + u64 (q * 2)) ≡ p + 2 * q = omega arith in
    let f : u64 (b + u64 (a * 2)) ≡ b + 2 * a = omega arith in rw (e, f) refl

-- What a value of `loops_per_jiffy` tells of a jiffy that the loop started within.
abbrev Near : (jiffy b a p : ℕ) → Type 0
Near jiffy b a p = b < jiffy → jiffy ≤ b + 2 * a → (p < jiffy) × (jiffy ≤ p + p / 128 + 64)

-- Before a jump `loopadd_base` is below the bound, and the next start is not above the jiffy.
module _ (jiffy b a p q bound : ℕ) (c : Chopped 64 jiffy (b / 2 ^ lps_prec) b a p q) (pos : 0 < a)
    (base : b < bound) (most : jiffy ≤ bound) where
  jump-lt : p + 2 * q ≡ b + 2 * a → (p < bound) × (a < bound)
  jump-lt e = elim (dec_lt (b / 2 ^ lps_prec) a) [
    | no le ↦ let same : p ≡ b = c.idle (omega arith) in (omega arith, omega arith)
    | yes lt ↦
        let above = c.taken lt e in
        elim c.under [ inl same ↦ absurd (omega arith) | inr below ↦ (omega arith, omega arith) ]
  ]

  jump-under : b < jiffy → p < jiffy
  jump-under h = elim c.under [ inl same ↦ omega arith | inr below ↦ below ]

  chopped-Near : Near jiffy b a p
  chopped-Near h k = (jump-under h, omega (arith, c.near 0 (omega arith), c.stop, c.low))

four_times : (a k : ℕ) → a * 4 ^ suc k ≡ a * 4 * 4 ^ k
four_times a k = ap (λ (x : ℕ). a * x) (pow-succ' 4 k) ∙ sym (mul_assoc a 4 (4 ^ k))

-- With `loopadd_base` four times as large after each jump, a bound is reached.
recalibrate-ends :
    (jumps jiffy b a bound : ℕ)
    → 0 < a
    → bound ≤ a * 4 ^ jumps
    → b < bound
    → jiffy ≤ bound
    → a < 4 * bound
    → bound ≤ 2 ^ 60
    → (p : ℕ) × (recalibrate jumps jiffy b a ≡ some p) × Near jiffy b a p
unfolding recalibrate
recalibrate-ends zero jiffy b a bound pos reach base most size small =
    let (p, q, got, c) =
      chop_loop-Chopped 64 jiffy (b / 2 ^ lps_prec) b a (omega arith) (omega arith) in
    let test = unchopped-eq b a p q (omega arith) (omega (arith, c.narrow)) in
    elim (Bool-cases (p + 2 * q == b + 2 * a)) [
      | inl e ↦ absurd (omega (arith, jump-lt jiffy b a p q bound c pos base most (==→eq _ _ e)))
      | inr e ↦ (p, rw (got, test, e) refl, chopped-Near jiffy b a p q bound c pos base most)
    ]
recalibrate-ends (suc jumps) jiffy b a bound pos reach base most size small =
    let (p, q, got, c) =
      chop_loop-Chopped 64 jiffy (b / 2 ^ lps_prec) b a (omega arith) (omega arith) in
    let test = unchopped-eq b a p q (omega arith) (omega (arith, c.narrow)) in
    elim (Bool-cases (p + 2 * q == b + 2 * a)) [
      | inr e ↦ (p, rw (got, test, e) refl, chopped-Near jiffy b a p q bound c pos base most)
      | inl e ↦
          let (below, fits) = jump-lt jiffy b a p q bound c pos base most (==→eq _ _ e) in
          let four : u64 (a * 4) ≡ a * 4 = omega arith in
          let (r, again, near) =
            recalibrate-ends jumps jiffy p (a * 4) bound (omega arith)
              (omega (arith, four_times a jumps)) below most (omega arith) small in
          (
            r,
            rw (got, test, e) (ap (recalibrate jumps jiffy p) four ∙ again),
            λ h k.
                near (jump-under jiffy b a p q bound c pos base most h)
                  (omega (arith, ==→eq _ _ e, c.narrow, c.low)),
          )
    ]

-- `calibrate_delay` ends: for jiffies of at most 2 ^ 42 loops no counter of its first loop overflows,
-- that loop needs no more rounds than the first jiffy has loops, and it jumps back at most 24 times.
calibrate_delay_ends :
    (first_jiffy jiffy : ℕ)
    → 0 < first_jiffy
    → first_jiffy ≤ 2 ^ 42
    → jiffy ≤ 2 ^ 42
    → (lpj : ℕ) × (calibrate_delay first_jiffy 24 first_jiffy jiffy ≡ some lpj)
      × (first_jiffy ≡ jiffy → (lpj < jiffy) × (jiffy ≤ lpj + lpj / 128 + 64))
unfolding calibrate_delay
calibrate_delay_ends first jiffy pos size small =
    let (trial, band, got, short, long, some_band, few) =
      first_loop-ends first first (record { trial = 0; band = 0; trial_in_band = 0 }) (omega arith)
        (omega arith) size
        (record { few = omega arith; doubled = omega arith; inside = omega arith }) in
    let b : u64 (first_lpj * trial) ≡ first_lpj * trial = omega arith in
    let a : u64 (first_lpj * band) ≡ first_lpj * band = omega arith in
    let (lpj, found, near) =
      recalibrate-ends 24 jiffy (first_lpj * trial) (first_lpj * band) (first + jiffy + 4096)
        (omega arith) (omega arith) (omega arith) (omega arith) (omega arith) (omega arith) in
    (
      lpj,
      rw got (
          ap (λ x. recalibrate 24 jiffy x (u64 (first_lpj * band))) b
          ∙ ap (recalibrate 24 jiffy (first_lpj * trial)) a
          ∙ found),
      λ e. near (omega (arith, e)) (omega (arith, e)),
    )

-- If all jiffies have the same number of loops, at most 2 ^ 42, then `calibrate_delay` ends: none of
-- the counters of its first loop overflows an `int`, that loop needs no more rounds than a jiffy has
-- loops, and it jumps back at most 24 times. The `loops_per_jiffy` that it finds is below that number, and not by more
-- than a 128th of itself and 64.
pub calibrate_delay_near :
    (jiffy : ℕ)
    → 0 < jiffy
    → jiffy ≤ 2 ^ 42
    → (lpj : ℕ) × (calibrate_delay jiffy 24 jiffy jiffy ≡ some lpj)
      × (lpj < jiffy)
      × (jiffy ≤ lpj + lpj / 128 + 64)
calibrate_delay_near jiffy pos small =
    let (lpj, found, near) = calibrate_delay_ends jiffy jiffy pos small small in
    let (below, above) = near refl in (lpj, found, below, above)
