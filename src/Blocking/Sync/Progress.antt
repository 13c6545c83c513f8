-- ===== src/Blocking/Sync/Progress.antt =====
-- The work that a thread of the loop has left, and the steps that shorten it.
use shm_sync.Prelude.{
  ℕ, refl, List, ◌≢◌, update_all, ◌∙◌, ◌+◌, ◌-◌, ◌*◌, ◌≤◌, ◌<◌, ◌≡◌, arith, pred_mul, dec_lt,
}
use shm_sync.Interleaving.{System, AllBelow, turn, run, Reach, Reach-induction}
use shm_sync.Blocking.Sync.{
  Next, goto, return, Lock, Place, head, locking, inside, unlocking, outside, finished, Thread,
  sync, sync_at, begin,
}

-- The loop counter stays in its range, and has run to its end when the thread is finished.
abbrev pub CountedAt : {W U : Type 0} → ℕ → ℕ → Place W U → Type 0
CountedAt iter nr head = iter ≤ nr
CountedAt iter nr finished = iter ≡ nr
CountedAt iter nr _ = iter < nr

abbrev pub Counted : {X W U : Type 0} → Thread X W U → Type 0
Counted t = CountedAt t.iter t.nr_iter t.place

-- The routine returns, or goes on where less than `b` is left.
abbrev pub Falls : {W : Type 0} → (W → ℕ) → ℕ → Next W → Type 0
Falls e b (goto w) = e w < b
Falls e b return = Unit

-- Whether the thread's next step is one of `lock` that has to wait.
abbrev pub Moves :
    {M X W U : Type 0} → Lock M X W U → (W → ℕ) → ℕ → M → Thread X W U → Place W U → Type 0
Moves l e i m t (locking w) = Falls e (e w) (l.lock i m t.vars w).2
Moves l e i m t finished = ⊥
Moves l e i m t _ = Unit

module _ {M X W U : Type 0} (l : Lock M X W U) (effort : W → ℕ) (effort_out : U → ℕ) where
  abbrev pub round : ℕ
  round = 6 + effort l.enter + effort_out l.leave

  abbrev pub left_at : ℕ → Place W U → ℕ
  left_at rest head = rest * round + 1
  left_at rest (locking w) = (rest - 1) * round + 5 + effort_out l.leave + effort w
  left_at rest inside = (rest - 1) * round + 4 + effort_out l.leave
  left_at rest (unlocking u) = (rest - 1) * round + 3 + effort_out u
  left_at rest outside = (rest - 1) * round + 2
  left_at rest finished = 0

  -- An upper bound on the steps that the thread makes, those that wait left aside.
  unfoldable pub left : Thread X W U → ℕ
  left t = left_at (t.nr_iter - t.iter) t.place

  module _
      (out_falls : (i : ℕ) (m : M) (x : X) (u : U)
        → Falls effort_out (effort_out u) (l.unlock i m x u).2) where
    left-sync_at :
        (i : ℕ) (m : M) (t : Thread X W U) (p : Place W U)
        → CountedAt t.iter t.nr_iter p
        → Moves l effort i m t p
        → left (sync_at l i m t p).1 < left_at (t.nr_iter - t.iter) p
    unfolding sync_at left
    left-sync_at i m t head h k = elim (dec_lt t.iter t.nr_iter) [
      | yes more ↦ ground (arith, pred_mul (t.nr_iter - t.iter) round (omega arith))
      | no last ↦ ground arith
    ]
    left-sync_at i m t (locking w) h k = ground arith
    left-sync_at i m t inside h k = ground arith
    left-sync_at i m t (unlocking u) h k = ground (arith, out_falls i m t.vars u)
    left-sync_at i m t outside h k = ground arith
    left-sync_at i m t finished h k = absurd k

    pub left-sync :
        (i : ℕ) (m : M) (t : Thread X W U)
        → Counted t
        → Moves l effort i m t t.place
        → left (sync l i m t).1 < left t
    unfolding sync left
    left-sync i m t h k = left-sync_at i m t t.place h k

  pub left-zero : (t : Thread X W U) → left t ≡ 0 → t.place ≡ finished
  unfolding left
  left-zero t h = ground arith

  pub busy-ne-finished : (t : Thread X W U) → 0 < left t → t.place ≢ finished
  unfolding left
  busy-ne-finished t h e = ground arith

-- Every thread keeps its number of rounds, and its counter in range.
abbrev pub AllCounted : {M X W U : Type 0} → (ℕ → ℕ) → System M (Thread X W U) → Type 0
AllCounted rounds s = (i : ℕ) → Counted (s.pc i) × ((s.pc i).nr_iter ≡ rounds i)

-- Some schedule of the `n` threads brings every one of them to the end of its loop.
abbrev pub Completes : {M X W U : Type 0} → Lock M X W U → ℕ → System M (Thread X W U) → Type 0
Completes l n s =
    (is : List ℕ) × AllBelow n is × ((i : ℕ) → i < n → ((run (sync l) s is).pc i).place ≡ finished)

module _ {M X W U : Type 0} (l : Lock M X W U) where
  Counted-sync_at :
      (i : ℕ) (m : M) (t : Thread X W U) (p : Place W U)
      → CountedAt t.iter t.nr_iter p
      → Counted (sync_at l i m t p).1
  unfolding sync_at
  Counted-sync_at i m t head h = ground arith
  Counted-sync_at i m t (locking w) h = ground arith
  Counted-sync_at i m t inside h = h
  Counted-sync_at i m t (unlocking u) h = ground arith
  Counted-sync_at i m t outside h = h
  Counted-sync_at i m t finished h = h

  pub Counted-sync : (i : ℕ) (m : M) (t : Thread X W U) → Counted t → Counted (sync l i m t).1
  unfolding sync
  Counted-sync i m t h = Counted-sync_at i m t t.place h

  nr_iter-sync : (i : ℕ) (m : M) (t : Thread X W U) → (sync l i m t).1.nr_iter ≡ t.nr_iter
  unfolding sync sync_at
  nr_iter-sync i m t = ground arith

  pub turn-AllCounted :
      (rounds : ℕ → ℕ) (s : System M (Thread X W U)) (i : ℕ)
      → AllCounted rounds s
      → AllCounted rounds (turn (sync l) s i)
  unfolding turn
  turn-AllCounted rounds s i c =
      update_all (λ j t. Counted t × (t.nr_iter ≡ rounds j)) s.pc i (sync l i s.mem (s.pc i)).1 c
        (Counted-sync i s.mem (s.pc i) (c i).0, nr_iter-sync i s.mem (s.pc i) ∙ (c i).1)

  pub Reach-AllCounted :
      {n : ℕ} {m : M} {x : X} {rounds : ℕ → ℕ} {s : System M (Thread X W U)}
      → Reach (sync l) n (begin m x rounds) s
      → AllCounted rounds s
  Reach-AllCounted {rounds = rounds} r =
      Reach-induction (sync l) (AllCounted rounds) (λ i. (omega arith, refl))
        (λ t i lt. turn-AllCounted rounds t i) r
