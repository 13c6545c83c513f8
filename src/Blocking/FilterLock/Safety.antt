-- ===== src/Blocking/FilterLock/Safety.antt =====
-- Mutual exclusion of `filter_lock`: the invariant in the states that its threads reach.
use shm_sync.Prelude.{
  ℕ, zero, suc, ◌+◌, ◌-◌, ◌≤◌, ◌<◌, ◌≡◌, ◌≢◌, true, false, leb, arith, refl, Bool-cases, inl, inr,
  sum_below, sum_below-le, sum_below-const, sum_below_strict, sum_below_two, if◌then◌else◌,
}
use shm_sync.Interleaving.{System, Reach, Reach-induction}
use shm_sync.Blocking.Sync.{critical, begin}
use shm_sync.Blocking.FilterLock.{EnvVars, Worker, filter_lock, reset_all, Vars}
use shm_sync.Blocking.FilterLock.Invariant.{entered, passed, Inv}
use shm_sync.Blocking.FilterLock.Moves.{turn-Inv}

begin-Inv :
    (n : ℕ) (m : EnvVars) (vars : Vars) (rounds : ℕ → ℕ)
    → let s = begin m vars rounds in Inv n s.mem s.pc
begin-Inv n m vars rounds = record {
  kept = λ i. omega arith;
  started = λ i h. cc;
  topped = λ i h. cc;
  held = λ i j b p h. absurd (omega arith);
  behind = λ i j b p h. absurd (omega arith);
  alone = λ i j k p v h b ne. omega arith;
  seen = λ i k v h b ne. absurd (omega arith);
}

-- What `n` threads reach behind their calls of `reset_filter_lock`.
abbrev pub Reached : ℕ → EnvVars → Vars → (ℕ → ℕ) → System EnvVars Worker → Type 0
Reached n m vars rounds s = Reach (filter_lock n) n (begin (reset_all n m) vars rounds) s

pub Reach-Inv :
    (n : ℕ) (m : EnvVars) (vars : Vars) (rounds : ℕ → ℕ) {s : System EnvVars Worker}
    → Reached n m vars rounds s
    → Inv n s.mem s.pc
Reach-Inv n m vars rounds r =
    Reach-induction (filter_lock n) (λ s. Inv n s.mem s.pc)
      (begin-Inv n (reset_all n m) vars rounds) turn-Inv r

-- 1 if the level is reached, else 0.
at_least : (level reached : ℕ) → ℕ
at_least level reached = if leb level reached then 1 else 0

-- Two threads have passed all levels up to `top`.
module _ {n : ℕ} {m : EnvVars} {pc : ℕ → Worker} (inv : Inv n m pc) (a b top : ℕ) (a_below : a < n)
    (b_below : b < n) (two : a ≢ b) (a_passed : top ≤ passed (pc a))
    (b_passed : top ≤ passed (pc b)) where
  open inv use {held, behind, alone}

  -- The victim of such a level still waits there.
  victim_waits :
      (j : ℕ)
      → 1 ≤ j
      → j ≤ top
      → (m.victims j < n) × (j ≤ entered (pc (m.victims j))) × (passed (pc (m.victims j)) < j)
  victim_waits j p h = (held a j a_below p up, behind a j a_below p up, waits)
    where
      up : j ≤ entered (pc a)
      up = ground arith

      waits : passed (pc (m.victims j)) < j
      waits = ground (arith, alone (m.victims j) j a p refl, alone (m.victims j) j b p refl)

  -- One thread less has passed each level.
  thinned : (j : ℕ) → j ≤ top → sum_below n (λ i. at_least j (passed (pc i))) + j ≤ n
  unfolding at_least
  thinned zero h = omega (
    arith,
    sum_below-const n 1,
    sum_below-le n (λ i. at_least 0 (passed (pc i))) (λ _. 1) (λ i lt. ground arith),
  )
  thinned (suc j) h =
      let (v_below, v_entered, v_waits) = victim_waits (suc j) (omega arith) h in
      omega (
        arith,
        thinned j (omega arith),
        sum_below_strict n (m.victims (suc j)) (λ i. at_least (suc j) (passed (pc i)))
            (λ i. at_least (suc j) (entered (pc i))) v_below (λ i lt. ground arith) (ground arith),
        sum_below-le n (λ i. at_least (suc j) (entered (pc i))) (λ i. at_least j (passed (pc i)))
            (λ i lt. ground arith),
      )

  crowded : 1 < sum_below n (λ i. at_least top (passed (pc i)))
  unfolding at_least
  crowded = sum_below_two n a b _ a_below b_below two (ground arith) (ground arith)

-- Two threads of `thread_number` that run `filter_lock` are never in the critical section together.
pub filter_exclusion :
    (thread_number : ℕ) (m : EnvVars) (vars : Vars) (rounds : ℕ → ℕ) {s : System EnvVars Worker}
    → Reached thread_number m vars rounds s
    → (i j : ℕ) → i < thread_number
    → j < thread_number
    → i ≢ j
    → critical (s.pc i) ≡ true
    → critical (s.pc j) ≡ false
filter_exclusion n m vars rounds {s = s} r i j p q ne c = elim (Bool-cases (critical (s.pc j))) [
  | inr out ↦ out
  | inl d ↦
      let inv = Reach-Inv n m vars rounds r in
      let up_i : n - 1 ≤ passed (s.pc i) = ground (arith, inv.topped i) in
      let up_j : n - 1 ≤ passed (s.pc j) = ground (arith, inv.topped j) in
      absurd (
        omega (
          arith,
          thinned inv i j (n - 1) p q ne up_i up_j (n - 1) (omega arith),
          crowded inv i j (n - 1) p q ne up_i up_j,
        ))
]
