-- ===== src/Blocking/FairLock/Laws.antt =====
-- Mutual exclusion of `fair_sync`, whose inner lock is one bit.
use shm_sync.Prelude.{ℕ, ◌≡◌, Bool, true, false, refl, Bool-cases, inl, inr}
use shm_sync.Interleaving.{System, Reach}
use shm_sync.Blocking.Sync.{Thread, critical, begin}
use shm_sync.Blocking.BitLock.{Effect, stay, take, drop, owns_locked, owns_unlocked, IsBitLock}
use shm_sync.Blocking.BitLock.Progress.{bit_exclusion}
use shm_sync.Blocking.FairLock.{
  Memory, Seen, Entry, Exit, store_doorway, load_group, store_group, load_own, compare_group,
  await_doorway, load_other, compare_own, await_other, await_own, await_state, await_group,
  load_locked, exchange_locked, store_unlocked, load_state, store_inactive, entry_section,
  exit_section, fair, fair_sync, init_fair_lock,
}

abbrev holds : Exit → Bool
holds store_unlocked = true
holds _ = false

entry_section-Effect :
    (n i : ℕ) (m : Memory) (x : Seen) (a : Entry)
    → let (m', x', r) = entry_section n i m x a in Effect m.locked false m'.locked (owns_locked r)
unfolding entry_section
entry_section-Effect n i m x exchange_locked = elim (Bool-cases m.locked) [
  | inl e ↦ rw e (stay refl refl)
  | inr e ↦ rw e (take refl refl refl)
]
entry_section-Effect n i m x store_doorway = stay refl refl
entry_section-Effect n i m x load_group = stay refl refl
entry_section-Effect n i m x store_group = stay refl refl
entry_section-Effect n i m x (load_own j) = stay refl refl
entry_section-Effect n i m x (compare_group j) = stay refl refl
entry_section-Effect n i m x (await_doorway j) = stay refl refl
entry_section-Effect n i m x (load_other j) = stay refl refl
entry_section-Effect n i m x (compare_own j) = stay refl refl
entry_section-Effect n i m x (await_other j) = stay refl refl
entry_section-Effect n i m x (await_own j) = stay refl refl
entry_section-Effect n i m x (await_state j) = stay refl refl
entry_section-Effect n i m x (await_group j) = stay refl refl
entry_section-Effect n i m x load_locked = stay refl refl

exit_section-Effect :
    (n i : ℕ) (m : Memory) (x : Seen) (a : Exit)
    → let (m', x', r) = exit_section n i m x a in
      Effect m.locked (holds a) m'.locked (owns_unlocked holds r)
unfolding exit_section
exit_section-Effect n i m x store_unlocked = drop refl refl refl
exit_section-Effect n i m x load_state = stay refl refl
exit_section-Effect n i m x store_group = stay refl refl
exit_section-Effect n i m x store_inactive = stay refl refl

fair-IsBitLock : (n : ℕ) → IsBitLock (fair n) (λ m. m.locked) holds
fair-IsBitLock n = record {
  locks = entry_section-Effect n;
  enters = refl;
  unlocks = exit_section-Effect n;
}

-- Two threads that run `fair_sync` are never in the critical section together.
pub fair_exclusion :
    {n : ℕ} (allocated : ℕ → ℕ) {rounds : ℕ → ℕ} {s : System Memory (Thread Seen Entry Exit)}
    → Reach (fair_sync n) n (begin (init_fair_lock n allocated) 0 rounds) s
    → (i j : ℕ) → critical (s.pc i) ≡ true
    → critical (s.pc j) ≡ true
    → i ≡ j
unfolding fair_sync
fair_exclusion {n} allocated r = bit_exclusion (fair-IsBitLock n) refl r
