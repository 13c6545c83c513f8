-- ===== src/Blocking/TatasLock/Laws.antt =====
-- Mutual exclusion and progress of `tatas_sync`, as a lock of one bit.
use shm_sync.Prelude.{ℕ, ◌≡◌, true, false, refl, arith}
use shm_sync.Interleaving.{System, Reach}
use shm_sync.Blocking.Sync.{Thread, critical, begin}
use shm_sync.Blocking.Sync.Progress.{Falls, Completes}
use shm_sync.Blocking.BitLock.{Effect, stay, take, drop, owns_locked, IsBitLock}
use shm_sync.Blocking.BitLock.Progress.{IsLive, bit_exclusion, bit_completion}
use shm_sync.Blocking.TatasLock.{
  Memory, Access, load, exchange, lock, unlock, initial, tatas_lock, tatas_sync,
}

lock-Effect :
    (i : ℕ) (m : Memory) (x : Unit {0}) (a : Access)
    → let (m', x', r) = lock i m x a in Effect m false m' (owns_locked r)
unfolding lock
lock-Effect i m x load = stay refl refl
lock-Effect i true x exchange = stay refl refl
lock-Effect i false x exchange = take refl refl refl

tatas_lock-IsBitLock : IsBitLock tatas_lock (λ m. m) (λ u. true)
unfolding unlock
tatas_lock-IsBitLock = record {
  locks = lock-Effect;
  enters = refl;
  unlocks = λ i m x u. drop refl refl refl;
}

-- Accesses of `lock` that are still to come while the flag is clear.
abbrev pub accesses : Access → ℕ
accesses load = 2
accesses exchange = 1

lock-Falls :
    (i : ℕ) (m : Memory) (x : Unit {0}) (a : Access)
    → m ≡ false
    → Falls accesses (accesses a) (lock i m x a).2
unfolding lock
lock-Falls i m x load h = rw h (omega arith)
lock-Falls i m x exchange h = rw h tt

tatas_lock-IsLive : IsLive tatas_lock (λ m. m) accesses (λ u. 1)
unfolding unlock
tatas_lock-IsLive = record { in_falls = lock-Falls; out_falls = λ i m x u. tt }

module _ {n : ℕ} {rounds : ℕ → ℕ} {s : System Memory (Thread (Unit {0}) Access (Unit {0}))}
    (r : Reach tatas_sync n (begin initial tt rounds) s) where
  -- Two threads that run `tatas_sync` are never in the critical section together.
  pub tatas_exclusion : (i j : ℕ) → critical (s.pc i) ≡ true → critical (s.pc j) ≡ true → i ≡ j
  unfolding tatas_sync
  tatas_exclusion = bit_exclusion tatas_lock-IsBitLock refl r

  -- From every state of `tatas_sync` that the threads reach, some schedule brings every thread to
  -- the end of its loop.
  pub tatas_completion : Completes tatas_lock n s
  unfolding tatas_sync
  tatas_completion = bit_completion tatas_lock-IsBitLock tatas_lock-IsLive refl r
