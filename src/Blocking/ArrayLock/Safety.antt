-- ===== src/Blocking/ArrayLock/Safety.antt =====
-- Mutual exclusion of `arraylock_sync`: the invariant in the states that its threads reach.
use shm_sync.Prelude.{
  ℕ, zero, suc, ◌+◌, ◌%◌, ◌^◌, ◌≤◌, ◌<◌, ◌≡◌, Bool, true, false, List, length, get_or, set, update,
  length-set, get_or-set, sum_below, total-le-sum, total-const, arith, refl, sym, ◌∙◌, Bool-cases,
  inl, inr, ℕ_discrete,
}
use mathlib.Core.Logic.{ite}
use shm_sync.Interleaving.{System, turn, Reach, Reach-induction}
use shm_sync.Blocking.Sync.{
  Place, head, locking, inside, unlocking, outside, finished, sync_at, critical, begin, call,
}
use shm_sync.Blocking.Sync.Progress.{CountedAt, AllCounted, turn-AllCounted}
use shm_sync.Blocking.ArrayLock.{
  Memory, LockAccess, fetch_add, load_flag, UnlockAccess, clear_own, set_next, Worker, lock, unlock,
  arraylock, arraylock_sync, init_arraylock, clear_flags, max_nr_threads,
}
use shm_sync.Blocking.ArrayLock.Invariant.{queued, owns, leaves, waits, taken, Inv}
use shm_sync.Blocking.ArrayLock.Moves.{quiet, fetch, enter, clear, pass_on}

-- The invariant, for some assignment of tickets.
pub record Tickets (n : ℕ) (s : System Memory Worker) : Type 0 where
  pub served : ℕ
  pub ticket : ℕ → ℕ
  pub inv : Inv n s.mem s.pc served ticket

taken-le :
    (t : Worker) (p : Place LockAccess UnlockAccess)
    → t.place ≡ p
    → CountedAt t.iter t.nr_iter p
    → taken t ≤ t.nr_iter
taken-le t head e h = ground arith
taken-le t (locking fetch_add) e h = ground arith
taken-le t (locking load_flag) e h = ground arith
taken-le t inside e h = ground arith
taken-le t (unlocking a) e h = ground arith
taken-le t outside e h = ground arith
taken-le t finished e h = ground arith

-- The tickets fetched are no more than the rounds that the threads run.
tail-le :
    {n : ℕ} {rounds : ℕ → ℕ} (s : System Memory Worker)
    → AllCounted rounds s
    → Tickets n s
    → s.mem.tail ≤ sum_below n rounds
tail-le {n} {rounds} s c t = omega (
  arith,
  t.inv.fetched,
  total-le-sum taken n s.pc rounds
      (λ i lt. omega (arith, taken-le (s.pc i) (s.pc i).place refl (c i).0, (c i).1)),
)

module _ {n : ℕ} (m : Memory) (pc : ℕ → Worker) (i : ℕ) (below : i < n)
    (small : m.tail < 2 ^ 63) where
  Move : Place LockAccess UnlockAccess → Type 0
  Move p =
      let (m', t') = sync_at (arraylock n) i m (pc i) p in
      Tickets n (record { mem = m'; pc = update pc i t' })

  same-Tickets :
      {m' : Memory} {pc' : ℕ → Worker} (t : Tickets n (record { mem = m; pc = pc }))
      → Inv n m' pc' t.served t.ticket
      → Tickets n (record { mem = m'; pc = pc' })
  same-Tickets t inv = record { served = t.served; ticket = t.ticket; inv = inv }

  unmoved :
      (t : Tickets n (record { mem = m; pc = pc })) (t' : Worker)
      → queued t' ≡ queued (pc i)
      → owns t' ≡ owns (pc i)
      → taken t' ≡ taken (pc i)
      → t'.vars ≡ (pc i).vars
      → leaves t' ≡ leaves (pc i)
      → Tickets n (record { mem = m; pc = update pc i t' })
  unmoved t t' q o k v l = same-Tickets t (quiet t.inv i below small t' q o k v l)

  move :
      (t : Tickets n (record { mem = m; pc = pc })) (p : Place LockAccess UnlockAccess)
      → (pc i).place ≡ p
      → Move p
  unfolding Move sync_at lock unlock
  move t head e = unmoved t _ (ground arith) (ground arith) (ground arith) refl (ground arith)
  move t (locking fetch_add) e = record {
    served = t.served;
    ticket = update t.ticket i m.tail;
    inv = fetch t.inv i below small e;
  }
  move t (locking load_flag) e = elim (Bool-cases (get_or m.flags (pc i).vars false)) [
    | inl found ↦ rw found (same-Tickets t (enter t.inv i below small e found))
    | inr low ↦
        rw low (unmoved t _ (ground arith) (ground arith) (ground arith) refl (ground arith))
  ]
  move t inside e = unmoved t _ (ground arith) (ground arith) (ground arith) refl (ground arith)
  move t (unlocking clear_own) e = same-Tickets t (clear t.inv i below small e)
  move t (unlocking set_next) e = record {
    served = t.served + 1;
    ticket = t.ticket;
    inv = pass_on t.inv i below small e;
  }
  move t outside e = unmoved t _ (ground arith) (ground arith) (ground arith) refl (ground arith)
  move t finished e = unmoved t _ (ground arith) (ground arith) (ground arith) refl (ground arith)

pub turn-Tickets :
    {n : ℕ} {rounds : ℕ → ℕ}
    → sum_below n rounds < 2 ^ 63
    → (s : System Memory Worker) (i : ℕ) → i < n
    → AllCounted rounds s
    → Tickets n s
    → Tickets n (turn (arraylock_sync n) s i)
unfolding turn arraylock_sync Move
turn-Tickets small s i below c t =
    move s.mem s.pc i below (omega (arith, tail-le s c t)) t (s.pc i).place refl

length-clear_flags : (n : ℕ) (flags : List Bool) → length (clear_flags n flags) ≡ length flags
unfolding clear_flags
length-clear_flags zero flags = refl
length-clear_flags (suc n) flags =
    length-set (clear_flags n flags) n false ∙ length-clear_flags n flags

clear_flags-false :
    (n : ℕ) (flags : List Bool) (k : ℕ)
    → n ≤ length flags
    → k < n
    → get_or (clear_flags n flags) k false ≡ false
unfolding clear_flags
clear_flags-false zero flags k h lt = absurd (omega arith)
clear_flags-false (suc n) flags k h lt = ground (
  arith,
  clear_flags-false n flags k (omega arith),
  get_or-set (clear_flags n flags) n k false false (omega (arith, length-clear_flags n flags)),
)

init-Tickets :
    (n : ℕ) (m : Memory) (rounds : ℕ → ℕ)
    → n ≤ max_nr_threads
    → length m.flags ≡ max_nr_threads
    → Tickets n (begin (init_arraylock n m) 0 rounds)
unfolding init_arraylock
init-Tickets n m rounds few size = record {
  served = 0;
  ticket = λ i. 0;
  inv = record {
    room = omega (arith, cleared_length, length-set (clear_flags n m.flags) 0 true);
    slot = λ i h. cc;
    window = λ i h. cc;
    distinct = λ i j p q. cc;
    first = λ i h. cc;
    up = λ k lt h. ground (arith, clear_flags-false n m.flags k, read k);
    down = λ i k h. cc;
    open_flag = λ h. absurd (ground (arith, read (0 % n)));
    counted = omega (arith, total-const waits n (λ i. call 0 (rounds i)) 0 (λ i lt. refl));
    covered = λ t p q. absurd (omega arith);
    fetched = omega (arith, total-const taken n (λ i. call 0 (rounds i)) 0 (λ i lt. omega arith));
  };
}
  where
    cleared_length : length (clear_flags n m.flags) ≡ max_nr_threads
    cleared_length = length-clear_flags n m.flags ∙ size

    read :
        (k : ℕ)
        → get_or (set (clear_flags n m.flags) 0 true) k false
          ≡ ite (ℕ_discrete 0 k) true (get_or (clear_flags n m.flags) k false)
    read k = get_or-set (clear_flags n m.flags) 0 k true false (omega (arith, cleared_length))

-- What the threads reach from `init_arraylock`.
abbrev pub Reached : ℕ → Memory → (ℕ → ℕ) → System Memory Worker → Type 0
Reached n m rounds s = Reach (arraylock_sync n) n (begin (init_arraylock n m) 0 rounds) s

pub Reach-Tickets :
    {n : ℕ} (m : Memory) {rounds : ℕ → ℕ} {s : System Memory Worker}
    → n ≤ max_nr_threads
    → length m.flags ≡ max_nr_threads
    → sum_below n rounds < 2 ^ 63
    → Reached n m rounds s
    → AllCounted rounds s × Tickets n s
unfolding arraylock_sync
Reach-Tickets {n} m {rounds} few size small r =
    Reach-induction (arraylock_sync n) (λ t. AllCounted rounds t × Tickets n t)
      ((λ i. (omega arith, refl)), init-Tickets n m rounds few size)
      (λ t i lt (c, k). (turn-AllCounted (arraylock n) rounds t i c, turn-Tickets small t i lt c k))
      r

owns_of_critical : (t : Worker) → critical t ≡ true → (owns t ≡ true) × (queued t ≡ true)
owns_of_critical t h = (ground arith, ground arith)

-- If there are no more threads than flags, and the rounds of all of them fit into `tail`, then two
-- threads that run `arraylock_sync` are never in the critical section together.
pub array_exclusion :
    {n : ℕ} (m : Memory) {rounds : ℕ → ℕ} {s : System Memory Worker}
    → n ≤ max_nr_threads
    → length m.flags ≡ max_nr_threads
    → sum_below n rounds < 2 ^ 63
    → Reached n m rounds s
    → (i j : ℕ) → critical (s.pc i) ≡ true
    → critical (s.pc j) ≡ true
    → i ≡ j
array_exclusion m {s = s} few size small r i j p q =
    let (c, t) = Reach-Tickets m few size small r in
    let (own_i, queued_i) = owns_of_critical (s.pc i) p in
    let (own_j, queued_j) = owns_of_critical (s.pc j) q in
    t.inv.distinct i j queued_i queued_j (t.inv.first i own_i ∙ sym (t.inv.first j own_j))
