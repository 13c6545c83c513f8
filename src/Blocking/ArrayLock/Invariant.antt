-- ===== src/Blocking/ArrayLock/Invariant.antt =====
-- Who waits for what in the array lock. The code keeps no ticket; the invariant gives each waiting
-- thread the value of `tail` that it fetched, and counts the tickets served.
use shm_sync.Prelude.{ℕ, ◌+◌, ◌%◌, ◌≤◌, ◌<◌, ◌≡◌, Bool, true, false, length, get_or, total}
use shm_sync.Blocking.Sync.{locking, inside, unlocking, outside}
use shm_sync.Blocking.ArrayLock.{Memory, load_flag, set_next, Worker}

-- The thread holds a ticket.
abbrev pub queued : Worker → Bool
queued t = elim t.place [
  | locking a ↦ elim a [ load_flag ↦ true | _ ↦ false ]
  | inside ↦ true
  | unlocking _ ↦ true
  | _ ↦ false
]

-- The thread has the lock, up to the last store of `unlock`.
abbrev pub owns : Worker → Bool
owns t = elim t.place [ inside ↦ true | unlocking _ ↦ true | _ ↦ false ]

-- Between the two stores of `unlock`.
abbrev pub leaves : Worker → Bool
leaves t = elim t.place [ unlocking a ↦ elim a [ set_next ↦ true | _ ↦ false ] | _ ↦ false ]

abbrev pub one_if : Bool → ℕ
one_if true = 1
one_if false = 0

abbrev pub waits : Worker → ℕ
waits t = one_if (queued t)

-- The tickets that the thread has taken.
abbrev pub taken : Worker → ℕ
taken t = t.iter + elim t.place [
  | locking a ↦ elim a [ load_flag ↦ 1 | _ ↦ 0 ]
  | inside ↦ 1
  | unlocking _ ↦ 1
  | outside ↦ 1
  | _ ↦ 0
]

pub record Inv (n : ℕ) (m : Memory) (pc : ℕ → Worker) (served : ℕ) (ticket : ℕ → ℕ) : Type 0 where
  pub room : n ≤ length m.flags
  pub slot : (i : ℕ) → queued (pc i) ≡ true → (pc i).vars ≡ ticket i % n
  pub window : (i : ℕ) → queued (pc i) ≡ true → (served ≤ ticket i) × (ticket i < m.tail)
  pub distinct :
      (i j : ℕ) → queued (pc i) ≡ true → queued (pc j) ≡ true → ticket i ≡ ticket j → i ≡ j
  pub first : (i : ℕ) → owns (pc i) ≡ true → ticket i ≡ served
  pub up : (k : ℕ) → k < n → get_or m.flags k false ≡ true → k ≡ served % n
  pub down : (i k : ℕ) → leaves (pc i) ≡ true → k < n → get_or m.flags k false ≡ false
  pub open_flag :
      get_or m.flags (served % n) false ≡ false → (i : ℕ) × (i < n) × (leaves (pc i) ≡ true)
  pub counted : total waits n pc + served ≡ m.tail
  pub covered :
      (t : ℕ)
      → served ≤ t
      → t < m.tail
      → (i : ℕ) × (i < n) × (queued (pc i) ≡ true) × (ticket i ≡ t)
  pub fetched : total taken n pc ≡ m.tail
