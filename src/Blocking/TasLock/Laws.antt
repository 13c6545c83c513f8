-- ===== src/Blocking/TasLock/Laws.antt =====
-- Mutual exclusion and progress of `taslock_sync`, as a lock of one bit.
use shm_sync.Prelude.{ℕ, ◌≡◌, Bool, true, false, if◌then◌else◌, refl}
use shm_sync.Interleaving.{System, Reach}
use shm_sync.Blocking.Sync.{goto, return, Thread, critical, begin}
use shm_sync.Blocking.Sync.Progress.{Completes}
use shm_sync.Blocking.BitLock.{Effect, stay, take, drop, owns_locked, IsBitLock}
use shm_sync.Blocking.BitLock.Progress.{IsLive, bit_exclusion, bit_completion}
use shm_sync.Blocking.TasLock.{EnvVars, lock, unlock, init_taslock, taslock, taslock_sync}

test_and_set-Effect :
    {W : Type 0} (b : Bool) (w : W)
    → Effect b false true (owns_locked (if b then goto w else return))
test_and_set-Effect true w = stay refl refl
test_and_set-Effect false w = take refl refl refl

taslock-IsBitLock : IsBitLock taslock (λ m. m.locked) (λ u. true)
unfolding lock unlock
taslock-IsBitLock = record {
  locks = λ i m x w. test_and_set-Effect m.locked w;
  enters = refl;
  unlocks = λ i m x u. drop refl refl refl;
}

taslock-IsLive : IsLive taslock (λ m. m.locked) (λ w. 1) (λ u. 1)
unfolding lock unlock
taslock-IsLive = record { in_falls = λ i m x w h. rw h tt; out_falls = λ i m x u. tt }

module _ {n : ℕ} (m : EnvVars) {rounds : ℕ → ℕ}
    {s : System EnvVars (Thread (Unit {0}) (Unit {0}) (Unit {0}))}
    (r : Reach taslock_sync n (begin (init_taslock m) tt rounds) s) where
  -- Two threads that run `taslock_sync` are never in the critical section together.
  pub tas_exclusion : (i j : ℕ) → critical (s.pc i) ≡ true → critical (s.pc j) ≡ true → i ≡ j
  unfolding taslock_sync init_taslock
  tas_exclusion = bit_exclusion taslock-IsBitLock refl r

  -- From every state of `taslock_sync` that the threads reach, some schedule brings every thread to
  -- the end of its loop.
  pub tas_completion : Completes taslock n s
  unfolding taslock_sync init_taslock
  tas_completion = bit_completion taslock-IsBitLock taslock-IsLive refl r
