-- ===== src/Blocking/PetersonLock/Safety.antt =====
-- Mutual exclusion of `peterson_lock` for two threads.
use shm_sync.Prelude.{ℕ, zero, suc, ◌<◌, ◌≤◌, ◌≡◌, Bool, true, false, arith, refl, ℕ_discrete}
use shm_sync.Interleaving.{System, turn, Reach, Reach-induction}
use shm_sync.Blocking.Sync.{
  Place, head, locking, inside, unlocking, outside, finished, sync_at, critical, begin,
}
use shm_sync.Blocking.PetersonLock.{
  EnvVars, Access, store_flag, exchange_turn, load_flag, load_turn, lock_0, lock_1, lock, unlock,
  peterson, Worker, peterson_lock, reset_peterson_lock,
}

-- Behind the store to the thread's own flag, up to the store that clears it.
abbrev pub raised : Worker → Bool
raised t = elim t.place [
  | locking a ↦ elim a [ store_flag ↦ false | _ ↦ true ]
  | inside ↦ true
  | unlocking _ ↦ true
  | _ ↦ false
]

-- Behind the exchange of `turn`.
abbrev pub contends : Worker → Bool
contends t = elim t.place [
  | locking a ↦ elim a [ load_flag ↦ true | load_turn ↦ true | _ ↦ false ]
  | inside ↦ true
  | unlocking _ ↦ true
  | _ ↦ false
]

abbrev pub owns : Worker → Bool
owns t = elim t.place [ inside ↦ true | unlocking _ ↦ true | _ ↦ false ]

abbrev Flag : Bool → ℕ → Type 0
Flag b f = (b ≡ true → f ≡ 1) × (b ≡ false → f ≡ 0)

-- If one thread owns the lock and the other contends for it, `turn` has gone to the owner.
pub record Inv (m : EnvVars) (t0 t1 : Worker) : Type 0 where
  pub flag_0 : Flag (raised t0) m.flag0
  pub flag_1 : Flag (raised t1) m.flag1
  pub turns : m.turn ≤ 1
  pub won_0 : owns t0 ≡ true → contends t1 ≡ true → m.turn ≡ 0
  pub won_1 : owns t1 ≡ true → contends t0 ≡ true → m.turn ≡ 1

module _ {m : EnvVars} {t0 t1 : Worker} (inv : Inv m t0 t1) where
  step_0 :
      (p : Place Access (Unit {0}))
      → t0.place ≡ p
      → let (m', t') = sync_at peterson 0 m t0 p in Inv m' t' t1
  unfolding sync_at lock lock_0 unlock
  step_0 head e = ground arith
  step_0 (locking store_flag) e = ground arith
  step_0 (locking exchange_turn) e = ground arith
  step_0 (locking load_flag) e = ground arith
  step_0 (locking load_turn) e = ground arith
  step_0 inside e = ground arith
  step_0 (unlocking u) e = ground arith
  step_0 outside e = ground arith
  step_0 finished e = ground arith

  step_1 :
      (p : Place Access (Unit {0}))
      → t1.place ≡ p
      → let (m', t') = sync_at peterson 1 m t1 p in Inv m' t0 t'
  unfolding sync_at lock lock_1 unlock
  step_1 head e = ground arith
  step_1 (locking store_flag) e = ground arith
  step_1 (locking exchange_turn) e = ground arith
  step_1 (locking load_flag) e = ground arith
  step_1 (locking load_turn) e = ground arith
  step_1 inside e = ground arith
  step_1 (unlocking u) e = ground arith
  step_1 outside e = ground arith
  step_1 finished e = ground arith

pub turn-Inv :
    (s : System EnvVars Worker) (i : ℕ)
    → i < 2
    → Inv s.mem (s.pc 0) (s.pc 1)
    → let s' = turn peterson_lock s i in Inv s'.mem (s'.pc 0) (s'.pc 1)
unfolding turn peterson_lock ℕ_discrete
turn-Inv s zero h inv = step_0 inv (s.pc 0).place refl
turn-Inv s (suc zero) h inv = step_1 inv (s.pc 1).place refl
turn-Inv s (suc (suc i)) h inv = absurd (omega arith)

pub Reach-Inv :
    (rounds : ℕ → ℕ) {s : System EnvVars Worker}
    → Reach peterson_lock 2 (begin reset_peterson_lock tt rounds) s
    → Inv s.mem (s.pc 0) (s.pc 1)
Reach-Inv rounds r =
    Reach-induction peterson_lock (λ s. Inv s.mem (s.pc 0) (s.pc 1)) (ground arith) turn-Inv r

-- Two threads, 0 and 1, that run `peterson_lock` are never in the critical section together.
pub peterson_exclusion :
    (rounds : ℕ → ℕ) {s : System EnvVars Worker}
    → Reach peterson_lock 2 (begin reset_peterson_lock tt rounds) s
    → critical (s.pc 0) ≡ true
    → critical (s.pc 1) ≡ false
peterson_exclusion rounds r p = let inv = Reach-Inv rounds r in ground arith
