-- ===== src/Blocking/MutexLock/Laws.antt =====
-- Mutual exclusion and progress of `cpp11_mutex_sync`.
use shm_sync.Prelude.{ℕ, ◌≡◌, true, refl, Bool-cases, inl, inr}
use shm_sync.Interleaving.{System, Reach}
use shm_sync.Blocking.Sync.{Thread, critical, begin}
use shm_sync.Blocking.Sync.Progress.{Completes}
use shm_sync.Blocking.BitLock.{stay, take, drop, IsBitLock}
use shm_sync.Blocking.BitLock.Progress.{IsLive, bit_exclusion, bit_completion}
use shm_sync.Blocking.MutexLock.{Mutex, lock, unlock, mutex_lock, fresh, cpp11_mutex_sync}

mutex_lock-IsBitLock : IsBitLock mutex_lock (λ m. m.owned) (λ u. true)
unfolding lock unlock
mutex_lock-IsBitLock = record {
  locks = λ i m x w. elim (Bool-cases m.owned) [
    | inl e ↦ rw e (stay refl refl)
    | inr e ↦ rw e (take refl refl refl)
  ];
  enters = refl;
  unlocks = λ i m x u. drop refl refl refl;
}

mutex_lock-IsLive : IsLive mutex_lock (λ m. m.owned) (λ w. 1) (λ u. 1)
unfolding lock unlock
mutex_lock-IsLive = record { in_falls = λ i m x w h. rw h tt; out_falls = λ i m x u. tt }

module _ {n : ℕ} {rounds : ℕ → ℕ} {s : System Mutex (Thread (Unit {0}) (Unit {0}) (Unit {0}))}
    (r : Reach cpp11_mutex_sync n (begin fresh tt rounds) s) where
  -- Two threads that run `cpp11_mutex_sync` are never in the critical section together.
  mutex_exclusion : (i j : ℕ) → critical (s.pc i) ≡ true → critical (s.pc j) ≡ true → i ≡ j
  unfolding cpp11_mutex_sync
  mutex_exclusion = bit_exclusion mutex_lock-IsBitLock refl r

  -- From every state of `cpp11_mutex_sync` that the threads reach, some schedule brings every
  -- thread to the end of its loop.
  pub mutex_completion : Completes mutex_lock n s
  unfolding cpp11_mutex_sync
  mutex_completion = bit_completion mutex_lock-IsBitLock mutex_lock-IsLive refl r
