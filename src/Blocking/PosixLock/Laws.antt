-- ===== src/Blocking/PosixLock/Laws.antt =====
-- Mutual exclusion and progress of `posix_sync`.
use shm_sync.Prelude.{ℕ, ◌≡◌, Bool, true, false, Option, none, some, refl, Bool-cases, inl, inr}
use shm_sync.Interleaving.{System, Reach}
use shm_sync.Blocking.Sync.{Thread, critical, begin}
use shm_sync.Blocking.Sync.Progress.{Completes}
use shm_sync.Blocking.BitLock.{Effect, stay, take, drop, owns_locked, IsBitLock}
use shm_sync.Blocking.BitLock.Progress.{IsLive, bit_exclusion, bit_completion}
use shm_sync.Blocking.PosixLock.{
  Pthread, IsPthread, after_lock, lock, unlock, posix_lock, posix_sync, init_posix,
}

module _ {Mutex : Type 0} {p : Pthread Mutex} {locked : Mutex → Bool}
    (law : IsPthread p locked) where
  lock-Effect :
      (i : ℕ) (m : Mutex) (x w : Unit {0})
      → let (m', x', r) = lock p i m x w in Effect (locked m) false (locked m') (owns_locked r)
  unfolding lock after_lock
  lock-Effect i m x w = elim (Bool-cases (locked m)) [
    | inl e ↦ rw (law.locked_blocks m e) (stay refl refl)
    | inr e ↦ let (m', f, g) = law.free_locks m e in rw f (take e g refl)
  ]

  posix_lock-IsBitLock : IsBitLock (posix_lock p) locked (λ u. true)
  unfolding unlock
  posix_lock-IsBitLock = record {
    locks = lock-Effect;
    enters = refl;
    unlocks = λ i m x u. drop refl (law.unlock_frees m) refl;
  }

  posix_lock-IsLive : IsLive (posix_lock p) locked (λ w. 1) (λ u. 1)
  unfolding lock unlock after_lock
  posix_lock-IsLive = record {
    in_falls = λ i m x w h. let (m', f, g) = law.free_locks m h in rw f tt;
    out_falls = λ i m x u. tt;
  }

  new_of_init :
      (allocated : Option Mutex) (m : Mutex) → init_posix p allocated ≡ some m → locked m ≡ false
  unfolding init_posix
  new_of_init none m e = cc
  new_of_init (some a) m e = law.new_free a m e

  module _ {n : ℕ} (allocated : Option Mutex) (m : Mutex) {rounds : ℕ → ℕ}
      {s : System Mutex (Thread (Unit {0}) (Unit {0}) (Unit {0}))}
      (init : init_posix p allocated ≡ some m)
      (r : Reach (posix_sync p) n (begin m tt rounds) s) where
    -- If `init_posix` succeeds and the mutex does what POSIX says, then two threads that run
    -- `posix_sync` are never in the critical section together.
    pub posix_exclusion : (i j : ℕ) → critical (s.pc i) ≡ true → critical (s.pc j) ≡ true → i ≡ j
    unfolding posix_sync
    posix_exclusion = bit_exclusion posix_lock-IsBitLock (new_of_init allocated m init) r

    -- If `init_posix` succeeds and the mutex does what POSIX says, then from every state that the
    -- threads reach some schedule brings every thread to the end of its loop.
    pub posix_completion : Completes (posix_lock p) n s
    unfolding posix_sync
    posix_completion =
        bit_completion posix_lock-IsBitLock posix_lock-IsLive (new_of_init allocated m init) r
