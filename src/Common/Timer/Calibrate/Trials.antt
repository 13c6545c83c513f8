-- ===== src/Common/Timer/Calibrate/Trials.antt =====
-- common/timer/timer_x86.cpp: the first loop of `calibrate_delay`.
use native.Mathlib.Nat.{pow-succ'}
use shm_sync.Prelude.{
  ℕ, zero, suc, ◌+◌, ◌-◌, ◌*◌, ◌^◌, ◌≤◌, ◌<◌, ◌≡◌, inl, inr, leb, ◌==◌, ==→eq, ltb, lt→ltb, true,
  some, refl, ap, ◌∙◌, arith, Bool-cases,
}
use shm_sync.Common.Timer.Calibrate.{first_lpj, Trial, next_trial, first_loop}

-- The counters as the first loop finds them: the rounds of a band raise `trial` at least as often.
pub record Counted (t : Trial) : Type 0 where
  pub few : t.band ≤ t.trial
  pub doubled : 2 ^ t.band + t.trial_in_band ≤ t.trial + 2
  pub inside : t.trial_in_band < 2 ^ t.band

doubling : (band : ℕ) → 2 ^ (band + 1) ≡ 2 * 2 ^ band
doubling band = ap (λ (n : ℕ). 2 ^ n) {x = band + 1} {y = suc band} (omega arith) ∙ pow-succ' 2 band

begun : (band k : ℕ) → k + 1 < 2 ^ band → 0 < band
begun zero k h = absurd (omega arith)
begun (suc band) k h = omega arith

-- Where `trial` is below 2 ^ 30, no counter of the round overflows.
next_trial-Counted :
    (t : Trial)
    → t.trial < 2 ^ 30
    → Counted t
    → (t' : Trial) × (next_trial t ≡ some t')
      × (t'.trial ≡ t.trial + t'.band)
      × (0 < t'.band)
      × (t'.band ≤ t.band + 1)
      × Counted t'
unfolding next_trial
next_trial-Counted t small c =
    let in_int : ltb (t.trial_in_band + 1) (2 ^ 31) ≡ true =
      lt→ltb _ _ (omega (arith, c.inside, c.doubled)) in
    let limit_int : ltb (2 ^ t.band) (2 ^ 31) ≡ true = lt→ltb _ _ (omega (arith, c.doubled)) in
    elim (Bool-cases (t.trial_in_band + 1 == 2 ^ t.band)) [
      | inl full ↦
          let fits : ltb (t.trial + (t.band + 1)) (2 ^ 31) ≡ true =
            lt→ltb _ _ (omega (arith, c.few)) in
          (
            record { trial = t.trial + (t.band + 1); band = t.band + 1; trial_in_band = 0 },
            rw (in_int, limit_int, full, fits) refl,
            refl,
            omega arith,
            omega arith,
            record {
              few = omega (arith, c.few);
              doubled = omega (arith, c.doubled, ==→eq _ _ full, doubling t.band);
              inside = omega (arith, doubling t.band, c.inside);
            },
          )
      | inr more ↦
          let fits : ltb (t.trial + t.band) (2 ^ 31) ≡ true = lt→ltb _ _ (omega (arith, c.few)) in
          let below : t.trial_in_band + 1 < 2 ^ t.band = ground (arith, c.inside) in
          let some_band : 0 < t.band = begun t.band t.trial_in_band below in
          (
            record { trial = t.trial + t.band; band = t.band; trial_in_band = t.trial_in_band + 1 },
            rw (in_int, limit_int, more, fits) refl,
            refl,
            some_band,
            omega arith,
            record {
              few = omega (arith, c.few);
              doubled = omega (arith, c.doubled);
              inside = below;
            },
          )
    ]

-- The first loop: the jiffy ends in its last round.
pub first_loop-ends :
    (fuel jiffy : ℕ) (t : Trial)
    → first_lpj * t.trial < jiffy
    → jiffy ≤ t.trial + fuel
    → jiffy ≤ 2 ^ 42
    → Counted t
    → (trial : ℕ) × (band : ℕ) × (first_loop fuel jiffy t ≡ some (trial, band))
      × (first_lpj * trial < jiffy)
      × (jiffy ≤ first_lpj * (trial + band))
      × (0 < band)
      × (band ≤ trial + 1)
unfolding first_loop
first_loop-ends zero jiffy t short enough size c = absurd (omega arith)
first_loop-ends (suc fuel) jiffy t short enough size c =
    let (t', got, sum, pos, next, c') = next_trial-Counted t (omega arith) c in
    elim (Bool-cases (leb jiffy (first_lpj * t'.trial))) [
      | inl e ↦ (
        t'.trial - t'.band,
        t'.band,
        rw got (rw e refl),
        omega (arith, sum, short),
        ground (arith, sum),
        pos,
        omega (arith, sum, next, c.few),
      )
      | inr e ↦
          let (trial, band, found, low, high, some_band, near) =
            first_loop-ends fuel jiffy t' (ground arith) (omega (arith, sum, pos)) size c' in
          (trial, band, rw got (rw e found), low, high, some_band, near)
    ]
