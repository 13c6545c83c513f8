-- ===== src/Common/Barrier/Progress.antt =====
-- Progress of `barrier_wait`, where all threads make the same number of calls.
use shm_sync.Prelude.{
  ℕ, zero, suc, ◌+◌, ◌-◌, ◌*◌, ◌^◌, ◌≤◌, ◌<◌, ◌≡◌, ◌≢◌, ◌⊎◌, inl, inr, List, total, find_pos,
  pred_mul, arith, refl, dec_lt,
}
use shm_sync.Interleaving.{System, Reach, run, AllBelow}
use shm_sync.Interleaving.Progress.{Drives, can_finish}
use shm_sync.Common.Barrier.{
  Counters, Place, outside, counted, scanning, finished, Thread, wait_at, barrier_wait, begin,
}
use shm_sync.Common.Barrier.Separation.{Inv, entered, turn-Inv, Reach-Inv}

module _ (n : ℕ) where
  abbrev left_at : ℕ → Place → ℕ
  left_at rest outside = rest * (n + 4) + 1
  left_at rest counted = (rest - 1) * (n + 4) + n + 3
  left_at rest (scanning my_level thr) = (rest - 1) * (n + 4) + (n - thr) + 2
  left_at rest finished = 0

  left : Thread → ℕ
  left t = left_at (t.calls - t.passed) t.place

  -- The thread's next step is no vain look at a counter that is behind.
  abbrev Moves : Counters → Place → Type 0
  Moves ctr (scanning my_level thr) = thr < n → my_level ≤ ctr thr
  Moves ctr finished = ⊥
  Moves ctr _ = Unit

  left-wait_at :
      (i : ℕ) (ctr : Counters) (t : Thread) (p : Place)
      → t.place ≡ p
      → entered t ≤ t.calls
      → Moves ctr p
      → left (wait_at n i ctr t p).1 < left_at (t.calls - t.passed) p
  unfolding wait_at left
  left-wait_at i ctr t outside e h k = elim (dec_lt t.passed t.calls) [
    | yes more ↦ ground (arith, pred_mul (t.calls - t.passed) (n + 4) (omega arith))
    | no last ↦ ground arith
  ]
  left-wait_at i ctr t counted e h k = ground arith
  left-wait_at i ctr t (scanning my_level thr) e h k = elim (dec_lt thr n) [
    | yes more ↦ ground (arith, k more)
    | no last ↦ ground arith
  ]
  left-wait_at i ctr t finished e h k = absurd k

  module _ (calls : ℕ) (s : System Counters Thread) (inv : Inv n calls s.mem s.pc) where
    open inv use {counts, bounded, level, through}

    moves :
        (i : ℕ) (p : Place)
        → i < n
        → (s.pc i).place ≡ p
        → Moves s.mem p
        → Drives (barrier_wait n) n left s
    unfolding barrier_wait left
    moves i p lt e k =
        (i, lt, rw e (left-wait_at i s.mem (s.pc i) p e (ground (arith, bounded i)) k))

    -- A thread that is not through can move, or waits for one that is behind it.
    move_or_wait :
        (i : ℕ) (p : Place)
        → i < n
        → (s.pc i).place ≡ p
        → p ≢ finished
        → Drives (barrier_wait n) n left s
          ⊎ ((j : ℕ) × (j < n) × (s.mem j < s.mem i) × ((s.pc j).place ≢ finished))
    move_or_wait i outside lt e busy = inl (moves i outside lt e tt)
    move_or_wait i counted lt e busy = inl (moves i counted lt e tt)
    move_or_wait i finished lt e busy = absurd (busy refl)
    move_or_wait i (scanning v thr) lt e busy = elim (dec_lt thr n) [
      | no last ↦ inl (moves i (scanning v thr) lt e (λ below. absurd (last below)))
      | yes below ↦ elim (dec_lt (s.mem thr) v) [
        | no reached ↦ inl (moves i (scanning v thr) lt e (λ _. omega arith))
        | yes behind ↦ inr (
          thr,
          below,
          omega (arith, level i v thr lt e),
          λ q.
              ground (
                arith,
                through thr q,
                level i v thr lt e,
                counts i lt,
                counts thr below,
                bounded i,
              ),
        )
      ]
    ]

    mover :
        (k i : ℕ)
        → i < n
        → (s.pc i).place ≢ finished
        → s.mem i ≤ k
        → Drives (barrier_wait n) n left s
    mover zero i lt busy h = elim (move_or_wait i (s.pc i).place lt refl busy) [
      | inl d ↦ d
      | inr (j, below, behind, busy') ↦ absurd (omega arith)
    ]
    mover (suc k) i lt busy h = elim (move_or_wait i (s.pc i).place lt refl busy) [
      | inl d ↦ d
      | inr (j, below, behind, busy') ↦ mover k j below busy' (omega arith)
    ]

    busy-ne-finished : (t : Thread) → 0 < left t → t.place ≢ finished
    unfolding left
    busy-ne-finished t h e = ground arith

    drive : (total left n s.pc ≡ 0) ⊎ Drives (barrier_wait n) n left s
    drive = elim (find_pos left n s.pc) [
      | inl z ↦ inl z
      | inr (i, lt, pos) ↦ inr (mover (s.mem i) i lt (busy-ne-finished (s.pc i) pos) (omega arith))
    ]

  left-zero : (t : Thread) → left t ≡ 0 → t.place ≡ finished
  unfolding left
  left-zero t h = ground arith

-- From every state that the threads reach, some schedule brings every thread through its calls, as
-- long as no counter wraps.
pub barrier_completes :
    {n calls : ℕ} (ctr : Counters) {s : System Counters Thread}
    → calls < 2 ^ 64
    → Reach (barrier_wait n) n (begin n ctr calls) s
    → (is : List ℕ) × AllBelow n is
      × ((i : ℕ) → i < n → ((run (barrier_wait n) s is).pc i).place ≡ finished)
barrier_completes {n} {calls} ctr {s} small r =
    let (is, below, end) =
      can_finish (barrier_wait n) n (left n) (λ t. Inv n calls t.mem t.pc) (turn-Inv n calls small)
        (drive n calls) (total (left n) n s.pc) s (Reach-Inv ctr small r) (omega arith) in
    (is, below, λ i lt. left-zero n _ (end i lt))
