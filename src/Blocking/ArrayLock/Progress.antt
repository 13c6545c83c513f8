-- ===== src/Blocking/ArrayLock/Progress.antt =====
-- Progress of `arraylock_sync`: the work that its threads have left, and who can shorten it.
use shm_sync.Prelude.{
  ℕ, ◌%◌, ◌^◌, ◌≤◌, ◌<◌, ◌≡◌, ◌≢◌, ◌⊎◌, inl, inr, true, false, length, get_or, total, find_pos,
  sum_below, arith, refl, ◌∙◌, ap, Bool-cases, dec_lt,
}
use shm_sync.Interleaving.{System}
use shm_sync.Interleaving.Progress.{Drives, can_finish}
use shm_sync.Blocking.Sync.{Place, head, locking, inside, unlocking, outside, finished, sync}
use shm_sync.Blocking.Sync.Progress.{
  AllCounted, turn-AllCounted, Completes, Falls, Moves, left, left-sync, left-zero,
  busy-ne-finished,
}
use shm_sync.Blocking.ArrayLock.{
  Memory, LockAccess, fetch_add, load_flag, UnlockAccess, clear_own, set_next, Worker, lock, unlock,
  arraylock, arraylock_sync, max_nr_threads,
}
use shm_sync.Blocking.ArrayLock.Safety.{Tickets, turn-Tickets, Reached, Reach-Tickets}

-- Accesses still to come, if the flag is up.
abbrev pub in_accesses : LockAccess → ℕ
in_accesses fetch_add = 2
in_accesses load_flag = 1

abbrev pub out_accesses : UnlockAccess → ℕ
out_accesses clear_own = 2
out_accesses set_next = 1

module _ (n : ℕ) where
  out-Falls :
      (i : ℕ) (m : Memory) (x : ℕ) (u : UnlockAccess)
      → Falls out_accesses (out_accesses u) (unlock n i m x u).2
  unfolding unlock
  out-Falls i m x clear_own = omega arith
  out-Falls i m x set_next = tt

  abbrev rest : Worker → ℕ
  rest = left (arraylock n) in_accesses out_accesses

  -- A thread that does not wait for its flag can move, and so can one whose flag is up.
  free-Moves :
      (i : ℕ) (m : Memory) (t : Worker) (p : Place LockAccess UnlockAccess)
      → (p ≡ locking load_flag → get_or m.flags t.vars false ≡ true)
      → p ≢ finished
      → Moves (arraylock n) in_accesses i m t p
  unfolding lock
  free-Moves i m t head f b = tt
  free-Moves i m t (locking fetch_add) f b = omega arith
  free-Moves i m t (locking load_flag) f b = rw (f refl) tt
  free-Moves i m t inside f b = tt
  free-Moves i m t (unlocking u) f b = tt
  free-Moves i m t outside f b = tt
  free-Moves i m t finished f b = absurd (b refl)

  module _ {rounds : ℕ → ℕ} (s : System Memory Worker) (c : AllCounted rounds s) where
    drives :
        (i : ℕ)
        → i < n
        → ((s.pc i).place ≡ locking load_flag → get_or s.mem.flags (s.pc i).vars false ≡ true)
        → (s.pc i).place ≢ finished
        → Drives (sync (arraylock n)) n rest s
    drives i lt f b = (
      i,
      lt,
      left-sync (arraylock n) in_accesses out_accesses out-Falls i s.mem (s.pc i) (c i).0
          (free-Moves i s.mem (s.pc i) (s.pc i).place f b),
    )

    module _ (t : Tickets n s) where
      open (t.inv) use {slot, first, open_flag, covered, window}

      -- The thread with the ticket that is served has its flag up, or its predecessor is about to
      -- put it up.
      served-Drives : t.served < s.mem.tail → Drives (sync (arraylock n)) n rest s
      served-Drives pending =
          let (i, lt, waiting, own) = covered t.served (omega arith) pending in
          let place : (s.pc i).vars ≡ t.served % n = slot i waiting ∙ ap (λ k. k % n) own in
          elim (Bool-cases (get_or s.mem.flags (t.served % n) false)) [
            | inl up ↦
                drives i lt (λ e. ap (λ k. get_or s.mem.flags k false) place ∙ up)
                  (λ e. ground arith)
            | inr down ↦
                let (j, below, leaving) = open_flag down in
                drives j below (λ e. absurd (ground arith)) (λ e. ground arith)
          ]

      drive : (total rest n s.pc ≡ 0) ⊎ Drives (sync (arraylock n)) n rest s
      drive = elim (find_pos rest n s.pc) [
        | inl z ↦ inl z
        | inr (i, lt, pos) ↦ elim (dec_lt t.served s.mem.tail) [
          | yes pending ↦ inr (served-Drives pending)
          | no none_waits ↦ inr (
              drives i lt (λ e. absurd (ground (arith, window i)))
                (busy-ne-finished (arraylock n) in_accesses out_accesses (s.pc i) pos))
        ]
      ]

-- If there are no more threads than flags, and the rounds of all of them fit into `tail`, then from
-- every state that the threads reach some schedule brings every thread to the end of its loop.
pub array_completion :
    {n : ℕ} (m : Memory) {rounds : ℕ → ℕ} {s : System Memory Worker}
    → n ≤ max_nr_threads
    → length m.flags ≡ max_nr_threads
    → sum_below n rounds < 2 ^ 63
    → Reached n m rounds s
    → Completes (arraylock n) n s
unfolding arraylock_sync
array_completion {n} m {rounds} {s} few size small r =
    let (is, below, end) =
      can_finish (sync (arraylock n)) n (rest n) (λ t. AllCounted rounds t × Tickets n t)
        (λ t i lt (c, k).
          (turn-AllCounted (arraylock n) rounds t i c, turn-Tickets small t i lt c k))
        (λ t (c, k). drive n t c k) (total (rest n) n s.pc) s (Reach-Tickets m few size small r)
        (omega arith) in
    (is, below, λ i lt. left-zero (arraylock n) in_accesses out_accesses _ (end i lt))
