-- ===== src/Blocking/PetersonLock/Progress.antt =====
-- Progress of `peterson_lock` for two threads.
use shm_sync.Prelude.{
  ℕ, zero, suc, ◌≤◌, ◌<◌, ◌≡◌, ◌≢◌, ◌⊎◌, inl, inr, Bool, true, false, replicate, total, find_pos,
  List, [], ◌∷◌, arith, refl, ap, ℕ_discrete, update,
}
use shm_sync.Interleaving.{System, turn, run, Reach, AllBelow}
use shm_sync.Interleaving.Bursts.{Bursts, can_finish-Bursts}
use shm_sync.Blocking.Sync.{Place, head, locking, inside, unlocking, outside, finished, sync, begin}
use shm_sync.Blocking.Sync.Progress.{
  AllCounted, turn-AllCounted, Reach-AllCounted, Completes, Moves, left, left-sync, left-zero,
  busy-ne-finished,
}
use shm_sync.Blocking.PetersonLock.{
  EnvVars, Access, store_flag, exchange_turn, load_flag, load_turn, lock_0, lock_1, lock, unlock,
  peterson, Worker, peterson_lock, reset_peterson_lock,
}
use shm_sync.Blocking.PetersonLock.Safety.{Inv, turn-Inv, Reach-Inv}
use mathlib.Core.Logic.{if_pos}

-- Accesses still to come, if the thread does not have to wait.
abbrev pub accesses : Access → ℕ
accesses store_flag = 3
accesses exchange_turn = 2
accesses load_flag = 1
accesses load_turn = 1

abbrev pub one_access : Unit {0} → ℕ
one_access u = 1

abbrev rest : Worker → ℕ
rest = left peterson accesses one_access

-- The thread is in the loop of `lock`.
abbrev waits_at : Place Access (Unit {0}) → Bool
waits_at (locking load_flag) = true
waits_at (locking load_turn) = true
waits_at _ = false

-- A step into the critical section shortens the work.
entering :
    (t t' : Worker)
    → waits_at t.place ≡ true
    → t'.place ≡ inside
    → t'.iter ≡ t.iter
    → t'.nr_iter ≡ t.nr_iter
    → rest t' < rest t
unfolding left
entering t t' w e i n = ground arith

abbrev Enters : System EnvVars Worker → ℕ → Type 0
Enters s i =
    (k : ℕ) × (((run peterson_lock s (replicate k i)).pc i).place ≡ inside)
    × (((run peterson_lock s (replicate k i)).pc i).iter ≡ (s.pc i).iter)
    × (((run peterson_lock s (replicate k i)).pc i).nr_iter ≡ (s.pc i).nr_iter)

first-Enters :
    (s : System EnvVars Worker)
    → waits_at (s.pc 0).place ≡ true
    → s.mem.turn ≤ 1
    → (s.mem.flag1 ≡ 0) ⊎ (s.mem.turn ≡ 0)
    → Enters s 0
unfolding run turn peterson_lock ℕ_discrete
first-Enters s w le h = at (s.pc 0).place refl
  where
    at : (p : Place Access (Unit {0})) → (s.pc 0).place ≡ p → Enters s 0
    at (locking load_flag) e = elim (ℕ_discrete s.mem.flag1 0) [
      | yes low ↦ (1, ground arith, ground arith, ground arith)
      | no up ↦ (2, ground arith, ground arith, ground arith)
    ]
    at (locking load_turn) e = elim (ℕ_discrete s.mem.turn 0) [
      | yes own ↦ (1, ground arith, ground arith, ground arith)
      | no other ↦ (2, ground arith, ground arith, ground arith)
    ]
    at _ e = absurd (ground arith)

second-Enters :
    (s : System EnvVars Worker)
    → waits_at (s.pc 1).place ≡ true
    → s.mem.turn ≤ 1
    → (s.mem.flag0 ≡ 0) ⊎ (s.mem.turn ≡ 1)
    → Enters s 1
unfolding run turn peterson_lock ℕ_discrete
second-Enters s w le h = at (s.pc 1).place refl
  where
    at : (p : Place Access (Unit {0})) → (s.pc 1).place ≡ p → Enters s 1
    at (locking load_flag) e = elim (ℕ_discrete s.mem.flag0 0) [
      | yes low ↦ (1, ground arith, ground arith, ground arith)
      | no up ↦ (2, ground arith, ground arith, ground arith)
    ]
    at (locking load_turn) e = elim (ℕ_discrete s.mem.turn 1) [
      | yes own ↦ (1, ground arith, ground arith, ground arith)
      | no other ↦ (2, ground arith, ground arith, ground arith)
    ]
    at _ e = absurd (ground arith)

-- What a thread does next.
data Status (p : Place Access (Unit {0})) : Type 0 where
  waiting : waits_at p ≡ true → Status p
  through : p ≡ finished → Status p
  free : waits_at p ≡ false → p ≢ finished → Status p

status : (p : Place Access (Unit {0})) → Status p
status head = free refl (λ e. cc)
status (locking store_flag) = free refl (λ e. cc)
status (locking exchange_turn) = free refl (λ e. cc)
status (locking load_flag) = waiting refl
status (locking load_turn) = waiting refl
status inside = free refl (λ e. cc)
status (unlocking u) = free refl (λ e. cc)
status outside = free refl (λ e. cc)
status finished = through refl

free-Moves :
    (i : ℕ) (m : EnvVars) (t : Worker) (p : Place Access (Unit {0}))
    → waits_at p ≡ false
    → p ≢ finished
    → Moves peterson accesses i m t p
unfolding lock lock_0 lock_1
free-Moves i m t head w b = tt
free-Moves zero m t (locking store_flag) w b = omega arith
free-Moves (suc i) m t (locking store_flag) w b = ground arith
free-Moves zero m t (locking exchange_turn) w b = omega arith
free-Moves (suc i) m t (locking exchange_turn) w b = ground arith
free-Moves i m t (locking load_flag) w b = cc
free-Moves i m t (locking load_turn) w b = cc
free-Moves i m t inside w b = tt
free-Moves i m t (unlocking u) w b = tt
free-Moves i m t outside w b = tt
free-Moves i m t finished w b = absurd (b refl)

module _ {rounds : ℕ → ℕ} (s : System EnvVars Worker) (c : AllCounted rounds s)
    (inv : Inv s.mem (s.pc 0) (s.pc 1)) where
  Driven : Type 0
  Driven = Bursts peterson_lock 2 rest s

  by_step : (i : ℕ) → i < 2 → waits_at (s.pc i).place ≡ false → (s.pc i).place ≢ finished → Driven
  unfolding Driven run turn peterson_lock unlock
  by_step i lt w b =
      let a = (sync peterson i s.mem (s.pc i)).1 in
      let here : rest (update s.pc i a i) ≡ rest a =
        ap rest (if_pos (ℕ_discrete i i) refl a (s.pc i)) in
      let less : rest a < rest (s.pc i) =
        left-sync peterson accesses one_access (λ i' m x u. tt) i s.mem (s.pc i) (c i).0
          (free-Moves i s.mem (s.pc i) (s.pc i).place w b) in
      (i, lt, 1, omega (arith, here, less))

  by_entering : (i : ℕ) → i < 2 → waits_at (s.pc i).place ≡ true → Enters s i → Driven
  unfolding Driven
  by_entering i lt w (k, e, f, g) = (i, lt, k, entering (s.pc i) _ w e f g)

  both_wait : waits_at (s.pc 0).place ≡ true → waits_at (s.pc 1).place ≡ true → Driven
  both_wait w v = elim (ℕ_discrete s.mem.turn 0) [
    | yes z ↦ by_entering 0 (omega arith) w (first-Enters s w inv.turns (inr z))
    | no p ↦
        by_entering 1 (omega arith) v (second-Enters s v inv.turns (inr (omega (arith, inv.turns))))
  ]

  drive_0 : Status (s.pc 0).place → Status (s.pc 1).place → (s.pc 0).place ≢ finished → Driven
  drive_0 (free w b) other h = by_step 0 (omega arith) w b
  drive_0 (through e) other h = absurd (h e)
  drive_0 (waiting w) (free v b) h = by_step 1 (omega arith) v b
  drive_0 (waiting w) (through e) h =
      by_entering 0 (omega arith) w (first-Enters s w inv.turns (inl (inv.flag_1.1 (rw e refl))))
  drive_0 (waiting w) (waiting v) h = both_wait w v

  drive_1 : Status (s.pc 0).place → Status (s.pc 1).place → (s.pc 1).place ≢ finished → Driven
  drive_1 other (free w b) h = by_step 1 (omega arith) w b
  drive_1 other (through e) h = absurd (h e)
  drive_1 (free v b) (waiting w) h = by_step 0 (omega arith) v b
  drive_1 (through e) (waiting w) h =
      by_entering 1 (omega arith) w (second-Enters s w inv.turns (inl (inv.flag_0.1 (rw e refl))))
  drive_1 (waiting v) (waiting w) h = both_wait v w

  drive : (total rest 2 s.pc ≡ 0) ⊎ Driven
  drive = elim (find_pos rest 2 s.pc) [
    | inl z ↦ inl z
    | inr (zero, lt, pos) ↦ inr (
        drive_0 (status (s.pc 0).place) (status (s.pc 1).place)
          (busy-ne-finished peterson accesses one_access (s.pc 0) pos))
    | inr (suc zero, lt, pos) ↦ inr (
        drive_1 (status (s.pc 0).place) (status (s.pc 1).place)
          (busy-ne-finished peterson accesses one_access (s.pc 1) pos))
    | inr (suc (suc i), lt, pos) ↦ absurd (omega arith)
  ]

Kept : (ℕ → ℕ) → System EnvVars Worker → Type 0
Kept rounds s = AllCounted rounds s × Inv s.mem (s.pc 0) (s.pc 1)

run-Kept :
    (rounds : ℕ → ℕ) (s : System EnvVars Worker) (is : List ℕ)
    → AllBelow 2 is
    → Kept rounds s
    → Kept rounds (run peterson_lock s is)
unfolding run Kept peterson_lock
run-Kept rounds s [] b k = k
run-Kept rounds s (i ∷ is) b (c, inv) =
    run-Kept rounds (turn peterson_lock s i) is b.1
      (turn-AllCounted peterson rounds s i c, turn-Inv s i b.0 inv)

-- From every state of `peterson_lock` that two threads reach, some schedule brings both to the end
-- of their loops.
pub peterson_completion :
    (rounds : ℕ → ℕ) {s : System EnvVars Worker}
    → Reach peterson_lock 2 (begin reset_peterson_lock tt rounds) s
    → Completes peterson 2 s
unfolding Kept peterson_lock Driven
peterson_completion rounds {s = s} r =
    let (is, below, end) =
      can_finish-Bursts peterson_lock 2 rest (Kept rounds) (run-Kept rounds)
        (λ t (c, inv). drive t c inv) (total rest 2 s.pc) s
        (Reach-AllCounted peterson r, Reach-Inv rounds r) (omega arith) in
    (is, below, λ i lt. left-zero peterson accesses one_access _ (end i lt))
