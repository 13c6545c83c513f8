-- ===== src/Blocking/ClhLock/Safety.antt =====
-- Mutual exclusion of `clhqueue_sync`: the invariant in the states that its threads reach.
use shm_sync.Prelude.{
  ℕ, suc, ◌+◌, ◌<◌, ◌≡◌, true, false, update, ◌==◌, arith, refl, sym, ◌∙◌, Bool-cases, inl, inr,
}
use shm_sync.Interleaving.{System, turn, Reach, Reach-induction}
use shm_sync.Blocking.Sync.{
  Place, head, locking, inside, unlocking, outside, finished, sync_at, critical,
}
use shm_sync.Blocking.ClhLock.{
  Memory, Vars, Worker, Access, store_locked, exchange_tail, load_pred, lock, unlock, clhqueue,
  clhqueue_sync, begin,
}
use shm_sync.Blocking.ClhLock.Moves.{
  queued, owns, marked, Inv, quiet, mark, join, turn_come, release, longer,
}

-- The invariant, for some queue of nodes.
pub record Queue (n : ℕ) (s : System Memory Worker) : Type 0 where
  pub served : ℕ
  pub top : ℕ
  pub node : ℕ → ℕ
  pub ticket : ℕ → ℕ
  pub inv : Inv n s.mem s.pc served top node ticket

module _ {n : ℕ} (m : Memory) (pc : ℕ → Worker) (i : ℕ) (below : i < n) where
  Move : Place Access (Unit {0}) → Type 0
  Move p =
      let (m', t') = sync_at clhqueue i m (pc i) p in
      Queue n (record { mem = m'; pc = update pc i t' })

  unmoved :
      (q : Queue n (record { mem = m; pc = pc })) (t' : Worker)
      → queued t' ≡ queued (pc i)
      → (owns t' ≡ true → q.ticket i ≡ q.served + 1)
      → marked t' ≡ false
      → t'.vars ≡ (pc i).vars
      → Queue n (record { mem = m; pc = update pc i t' })
  unmoved q t' a o r v = record {
    served = q.served;
    top = q.top;
    node = q.node;
    ticket = q.ticket;
    inv = quiet q.inv i below t' a o r v;
  }

  move :
      (q : Queue n (record { mem = m; pc = pc })) (p : Place Access (Unit {0}))
      → (pc i).place ≡ p
      → Move p
  unfolding Move sync_at lock unlock
  move q head e = elim (Bool-cases ((pc i).iter == (pc i).nr_iter)) [
    | inl f ↦ rw f (unmoved q _ (ground arith) (λ h. ground arith) (ground arith) refl)
    | inr f ↦ rw f (unmoved q _ (ground arith) (λ h. ground arith) (ground arith) refl)
  ]
  move q (locking store_locked) e = record {
    served = q.served;
    top = q.top;
    node = q.node;
    ticket = q.ticket;
    inv = mark q.inv i below e;
  }
  move q (locking exchange_tail) e = record {
    served = q.served;
    top = suc q.top;
    node = longer q.inv i below e;
    ticket = update q.ticket i (suc q.top);
    inv = join q.inv i below e;
  }
  move q (locking load_pred) e = elim (Bool-cases (m.locked ((pc i).vars.my_pred))) [
    | inl held ↦ rw held (unmoved q _ (ground arith) (λ h. ground arith) (ground arith) refl)
    | inr found ↦
        rw found
          (unmoved q _ (ground arith) (λ h. turn_come q.inv i below e found) (ground arith) refl)
  ]
  move q inside e = unmoved q _ (ground arith) (λ h. q.inv.first i (rw e refl)) (ground arith) refl
  move q (unlocking u) e = record {
    served = q.served + 1;
    top = q.top;
    node = q.node;
    ticket = q.ticket;
    inv = release q.inv i below e;
  }
  move q outside e = unmoved q _ (ground arith) (λ h. ground arith) (ground arith) refl
  move q finished e = unmoved q _ (ground arith) (λ h. ground arith) (ground arith) refl

pub turn-Queue :
    {n : ℕ} (s : System Memory Worker) (i : ℕ)
    → i < n
    → Queue n s
    → Queue n (turn clhqueue_sync s i)
unfolding turn clhqueue_sync Move
turn-Queue s i below q = move s.mem s.pc i below q (s.pc i).place refl

pub begin-Queue :
    (n : ℕ) (m : Memory) (vars : ℕ → Vars) (rounds : ℕ → ℕ) → Queue n (begin m vars rounds)
begin-Queue n m vars rounds = record {
  served = 0;
  top = 0;
  node = λ k. 0;
  ticket = λ i. 0;
  inv = record {
    ordered = omega arith;
    at_tail = refl;
    low = ground arith;
    high = λ k a b. absurd (omega arith);
    apart = λ k l a b c d e. omega arith;
    window = λ i h. cc;
    own = λ i h. cc;
    pred = λ i h. cc;
    distinct = λ i j p q e. cc;
    first = λ i h. cc;
    idle = λ i k h a b e. absurd (omega arith);
    idle_distinct = λ i j p q e. omega arith;
    covered = λ t a b. absurd (omega arith);
    ready = λ i h. cc;
  };
}

owner : (t : Worker) → critical t ≡ true → (queued t ≡ true) × (owns t ≡ true)
owner t h = (ground arith, ground arith)

-- Two threads that run `clhqueue_sync`, each with a node of its own, are never in the critical
-- section together.
pub clh_exclusion :
    {n : ℕ} (m : Memory) (vars : ℕ → Vars) (rounds : ℕ → ℕ) {s : System Memory Worker}
    → Reach clhqueue_sync n (begin m vars rounds) s
    → (i j : ℕ) → critical (s.pc i) ≡ true
    → critical (s.pc j) ≡ true
    → i ≡ j
clh_exclusion {n} m vars rounds {s = s} r i j p q =
    let u = Reach-induction clhqueue_sync (Queue n) (begin-Queue n m vars rounds) turn-Queue r in
    let (queued_i, own_i) = owner (s.pc i) p in
    let (queued_j, own_j) = owner (s.pc j) q in
    u.inv.distinct i j queued_i queued_j (u.inv.first i own_i ∙ sym (u.inv.first j own_j))
