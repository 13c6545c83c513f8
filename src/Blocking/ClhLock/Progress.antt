-- ===== src/Blocking/ClhLock/Progress.antt =====
-- Progress of `clhqueue_sync`: the work that its threads have left, and who can shorten it.
use shm_sync.Prelude.{
  ℕ, ◌+◌, ◌-◌, ◌<◌, ◌≡◌, ◌≢◌, ◌⊎◌, inl, inr, false, total, find_pos, arith, refl, ap, ◌∙◌, dec_lt,
}
use shm_sync.Interleaving.{System, turn, Reach, Reach-induction}
use shm_sync.Interleaving.Progress.{Drives, can_finish}
use shm_sync.Blocking.Sync.{Place, head, locking, inside, unlocking, outside, finished, sync}
use shm_sync.Blocking.Sync.Progress.{
  AllCounted, turn-AllCounted, Completes, Moves, left, left-sync, left-zero, busy-ne-finished,
}
use shm_sync.Blocking.ClhLock.{
  Memory, Vars, Worker, Access, store_locked, exchange_tail, load_pred, lock, unlock, clhqueue,
  clhqueue_sync, begin,
}
use shm_sync.Blocking.ClhLock.Safety.{Queue, turn-Queue, begin-Queue}

-- Accesses still to come, if the predecessor is unlocked.
abbrev pub accesses : Access → ℕ
accesses store_locked = 3
accesses exchange_tail = 2
accesses load_pred = 1

abbrev pub one_access : Unit {0} → ℕ
one_access u = 1

abbrev rest : Worker → ℕ
rest = left clhqueue accesses one_access

-- A thread that does not wait can move, and so can one whose predecessor is unlocked.
free-Moves :
    (i : ℕ) (m : Memory) (t : Worker) (p : Place Access (Unit {0}))
    → (p ≡ locking load_pred → m.locked (t.vars.my_pred) ≡ false)
    → p ≢ finished
    → Moves clhqueue accesses i m t p
unfolding lock
free-Moves i m t head f b = tt
free-Moves i m t (locking store_locked) f b = omega arith
free-Moves i m t (locking exchange_tail) f b = omega arith
free-Moves i m t (locking load_pred) f b = rw (f refl) tt
free-Moves i m t inside f b = tt
free-Moves i m t (unlocking u) f b = tt
free-Moves i m t outside f b = tt
free-Moves i m t finished f b = absurd (b refl)

module _ {n : ℕ} {rounds : ℕ → ℕ} (s : System Memory Worker) (c : AllCounted rounds s) where
  drives :
      (i : ℕ)
      → i < n
      → ((s.pc i).place ≡ locking load_pred → s.mem.locked ((s.pc i).vars.my_pred) ≡ false)
      → (s.pc i).place ≢ finished
      → Drives (sync clhqueue) n rest s
  unfolding unlock
  drives i lt f b = (
    i,
    lt,
    left-sync clhqueue accesses one_access (λ i' m x u. tt) i s.mem (s.pc i) (c i).0
        (free-Moves i s.mem (s.pc i) (s.pc i).place f b),
  )

  module _ (q : Queue n s) where
    open (q.inv) use {ordered, low, window, pred, covered}

    -- The first thread of the queue has an unlocked predecessor.
    first-Drives : q.served < q.top → Drives (sync clhqueue) n rest s
    first-Drives pending =
        let (i, lt, waiting, own) = covered (q.served + 1) (omega arith) (omega arith) in
        let before : q.ticket i - 1 ≡ q.served = omega (arith, own) in
        drives i lt (λ e. ap s.mem.locked (pred i waiting ∙ ap q.node before) ∙ low)
          (λ e. ground arith)

    drive : (total rest n s.pc ≡ 0) ⊎ Drives (sync clhqueue) n rest s
    drive = elim (find_pos rest n s.pc) [
      | inl z ↦ inl z
      | inr (i, lt, pos) ↦ elim (dec_lt q.served q.top) [
        | yes pending ↦ inr (first-Drives pending)
        | no none_waits ↦ inr (
            drives i lt (λ e. absurd (ground (arith, window i)))
              (busy-ne-finished clhqueue accesses one_access (s.pc i) pos))
      ]
    ]

-- From every state of `clhqueue_sync` that the threads reach, some schedule brings every thread to
-- the end of its loop.
pub clh_completion :
    {n : ℕ} (m : Memory) (vars : ℕ → Vars) (rounds : ℕ → ℕ) {s : System Memory Worker}
    → Reach clhqueue_sync n (begin m vars rounds) s
    → Completes clhqueue n s
unfolding clhqueue_sync
clh_completion {n} m vars rounds {s = s} r =
    let (is, below, end) =
      can_finish (sync clhqueue) n rest (λ t. AllCounted rounds t × Queue n t) keep
        (λ t (c, q). drive t c q) (total rest n s.pc) s
        (Reach-induction (sync clhqueue) (λ t. AllCounted rounds t × Queue n t)
          (λ i. (omega arith, refl), begin-Queue n m vars rounds) keep r)
        (omega arith) in
    (is, below, λ i lt. left-zero clhqueue accesses one_access _ (end i lt))
  where
    keep :
        (t : System Memory Worker) (i : ℕ)
        → i < n
        → AllCounted rounds t × Queue n t
        → AllCounted rounds (turn (sync clhqueue) t i) × Queue n (turn (sync clhqueue) t i)
    keep t i lt (c, q) = (turn-AllCounted clhqueue rounds t i c, turn-Queue t i lt q)
