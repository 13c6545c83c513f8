-- ===== src/Common/Timer/Calibrate/Chop.antt =====
-- common/timer/timer_x86.cpp: the loop of `calibrate_delay` that halves `loopadd`.
use native.Mathlib.Nat.{pow-succ'}
use shm_sync.Prelude.{
  ℕ, zero, suc, ◌+◌, ◌*◌, ◌/◌, ◌^◌, ◌≤◌, ◌<◌, ◌≡◌, ◌⊎◌, inl, inr, ltb, leb, false, if◌then◌else◌,
  some, refl, arith, Bool-cases, ltb→lt, ltb→ge,
}
use shm_sync.Common.Timer.{u64}
use shm_sync.Common.Timer.Calibrate.{sub_u64, adjust, chop_loop}

-- Without a wrap-around `lpj` is raised unless that would reach the jiffy.
adjust-eq :
    (jiffy b a : ℕ) → b + a < 2 ^ 64 → adjust jiffy b a ≡ (if leb jiffy (b + a) then b else b + a)
adjust-eq jiffy b a h =
    let e : u64 (b + a) ≡ b + a = omega arith in
    let back : sub_u64 (b + a) a ≡ b = omega arith in rw (e, back) refl

-- The loop from `b` and `a` ends with `p` and `q`, after at most `n` rounds.
pub record Chopped (n jiffy chop_limit b a p q : ℕ) : Type 0 where
  pub low : b ≤ p
  pub under : (p ≡ b) ⊎ (p < jiffy)
  pub narrow : p + 2 * q ≤ b + 2 * a
  pub stop : q ≤ chop_limit
  pub idle : a ≤ chop_limit → p ≡ b
  pub taken : chop_limit < a → p + 2 * q ≡ b + 2 * a → b + a ≤ p
  pub near : (d : ℕ) → jiffy ≤ b + 2 * a + d → jiffy ≤ p + 2 * q + d + n

Chopped-stop : (n jiffy chop_limit b a : ℕ) → a ≤ chop_limit → Chopped n jiffy chop_limit b a b a
Chopped-stop n jiffy chop_limit b a h = record {
  low = omega arith;
  under = inl refl;
  narrow = omega arith;
  stop = h;
  idle = λ k. refl;
  taken = λ k e. absurd (omega arith);
  near = λ d k. omega arith;
}

-- A round that raises `lpj`, and one that does not.
Chopped-raise :
    (n jiffy chop_limit b a p q : ℕ)
    → chop_limit < a
    → b + a < jiffy
    → Chopped n jiffy chop_limit (b + a) (a / 2) p q
    → Chopped (suc n) jiffy chop_limit b a p q
Chopped-raise n jiffy chop_limit b a p q h k c = record {
  low = omega (arith, c.low);
  under = elim c.under [ inl e ↦ inr (omega arith) | inr lt ↦ inr lt ];
  narrow = omega (arith, c.narrow);
  stop = c.stop;
  idle = λ le. absurd (omega arith);
  taken = λ lt e. c.low;
  near = λ d le. omega (arith, c.near (d + 1) (omega arith));
}

Chopped-leave :
    (n jiffy chop_limit b a p q : ℕ)
    → chop_limit < a
    → jiffy ≤ b + a
    → Chopped n jiffy chop_limit b (a / 2) p q
    → Chopped (suc n) jiffy chop_limit b a p q
Chopped-leave n jiffy chop_limit b a p q h k c = record {
  low = c.low;
  under = c.under;
  narrow = omega (arith, c.narrow);
  stop = c.stop;
  idle = λ le. absurd (omega arith);
  taken = λ lt e. absurd (omega (arith, c.narrow));
  near = λ d le. omega (arith, c.near 1 (omega arith), c.near (d + 1) (omega arith));
}

pub chop_loop-Chopped :
    (n jiffy chop_limit b a : ℕ)
    → a < 2 ^ n
    → b + 2 * a < 2 ^ 64
    → (p : ℕ) × (q : ℕ) × (chop_loop n jiffy chop_limit b a ≡ some (p, q))
      × Chopped n jiffy chop_limit b a p q
unfolding chop_loop
chop_loop-Chopped zero jiffy chop_limit b a small room =
    let stops : ltb chop_limit a ≡ false = ground arith in
    (b, a, rw stops refl, Chopped-stop 0 jiffy chop_limit b a (omega arith))
chop_loop-Chopped (suc n) jiffy chop_limit b a small room = elim (Bool-cases (ltb chop_limit a)) [
  | inr e ↦ (b, a, rw e refl, Chopped-stop (suc n) jiffy chop_limit b a (ltb→ge _ _ e))
  | inl e ↦
      let half : a / 2 < 2 ^ n = omega (arith, pow-succ' 2 n) in
      let adjusted = adjust-eq jiffy b a (omega arith) in
      elim (Bool-cases (leb jiffy (b + a))) [
        | inl reached ↦
            let (p, q, got, c) =
              chop_loop-Chopped n jiffy chop_limit b (a / 2) half (omega arith) in
            (
              p,
              q,
              rw (e, adjusted, reached) got,
              Chopped-leave n jiffy chop_limit b a p q (ltb→lt _ _ e) (ground arith) c,
            )
        | inr open_end ↦
            let (p, q, got, c) =
              chop_loop-Chopped n jiffy chop_limit (b + a) (a / 2) half (omega arith) in
            (
              p,
              q,
              rw (e, adjusted, open_end) got,
              Chopped-raise n jiffy chop_limit b a p q (ltb→lt _ _ e) (ground arith) c,
            )
      ]
]
