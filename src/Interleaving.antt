-- ===== src/Interleaving.antt =====
-- Threads over one shared memory. A thread is its local state, with the place where it stands in
-- the code; `step i` is its next access to the memory. Any thread may move next.
pub mod Progress
pub mod Bursts
use shm_sync.Prelude.{ℕ, ◌<◌, List, [], ◌∷◌, update}

-- Every thread of the schedule is one of the `n`.
abbrev pub AllBelow : ℕ → List ℕ → Type 0
AllBelow n [] = Unit
AllBelow n (i ∷ is) = (i < n) × AllBelow n is

pub record System (M L : Type 0) : Type 0 where
  pub mem : M
  pub pc : ℕ → L

module _ {M L : Type 0} (step : ℕ → M → L → M × L) where
  -- Thread `i` makes its next step.
  unfoldable pub turn : System M L → ℕ → System M L
  turn s i = let (m, p) = step i s.mem (s.pc i) in record { mem = m; pc = update s.pc i p }

  -- The threads move in the order of the list.
  unfoldable pub run : System M L → List ℕ → System M L
  unfolding turn
  run s [] = s
  run s (i ∷ is) = run (turn s i) is

  -- The states that `n` threads can reach from `s`.
  pub data Reach (n : ℕ) (s : System M L) : System M L → Type 0 where
    start : Reach n s s
    later : {t : System M L} → Reach n s t → (i : ℕ) → i < n → Reach n s (turn t i)

  -- What holds at the start and is kept by every step holds in every state reached.
  pub Reach-induction :
      {n : ℕ} {s : System M L} (P : System M L → Type 0)
      → P s
      → ((t : System M L) (i : ℕ) → i < n → P t → P (turn t i))
      → {t : System M L} → Reach n s t
      → P t
  Reach-induction P base keep start = base
  Reach-induction P base keep (later {t} r i lt) = keep t i lt (Reach-induction P base keep r)

  pub run-Reach :
      {n : ℕ} {s : System M L} (is : List ℕ) (t : System M L)
      → Reach n s t
      → AllBelow n is
      → Reach n s (run t is)
  unfolding run
  run-Reach [] t r b = r
  run-Reach (i ∷ is) t r b = run-Reach is (turn t i) (later r i b.0) b.1
