-- ===== src/Blocking/BitLock/Progress.antt =====
-- Mutual exclusion and progress of the benchmark loop over a lock of one bit.
use shm_sync.Prelude.{
  ℕ, ◌≡◌, ◌≢◌, ◌⊎◌, inl, inr, Bool, true, false, total, find_pos, Bool-cases, arith, refl,
}
use shm_sync.Interleaving.{System, Reach, Reach-induction}
use shm_sync.Interleaving.Progress.{Drives, can_finish}
use shm_sync.Blocking.Sync.{
  Lock, Place, head, locking, inside, unlocking, outside, finished, Thread, sync, critical_at,
  critical, begin,
}
use shm_sync.Blocking.Sync.Progress.{
  AllCounted, turn-AllCounted, Reach-AllCounted, Completes, Falls, Moves, left, left-sync,
  left-zero, busy-ne-finished,
}
use shm_sync.Blocking.BitLock.{IsBitLock, owns_at, Inv, turn-Inv}

owns_of_critical :
    {W U : Type 0} (holds : U → Bool) (p : Place W U)
    → critical_at p ≡ true
    → owns_at holds p ≡ true
owns_of_critical holds inside h = refl
owns_of_critical holds head h = cc
owns_of_critical holds (locking w) h = cc
owns_of_critical holds (unlocking u) h = cc
owns_of_critical holds outside h = cc
owns_of_critical holds finished h = cc

module _ {M X W U : Type 0} {l : Lock M X W U} {locked : M → Bool} {holds : U → Bool}
    (law : IsBitLock l locked holds) where
  pub Reach-Inv :
      {n : ℕ} {m : M} {x : X} {rounds : ℕ → ℕ} {s : System M (Thread X W U)}
      → locked m ≡ false
      → Reach (sync l) n (begin m x rounds) s
      → Inv law n s
  Reach-Inv {n} clear r =
      Reach-induction (sync l) (Inv law n)
        (record { excl = λ i j p q. cc; taken = λ i p. cc; held = λ p. cc }) (turn-Inv law n) r

  pub bit_exclusion :
      {n : ℕ} {m : M} {x : X} {rounds : ℕ → ℕ} {s : System M (Thread X W U)}
      → locked m ≡ false
      → Reach (sync l) n (begin m x rounds) s
      → (i j : ℕ) → critical (s.pc i) ≡ true
      → critical (s.pc j) ≡ true
      → i ≡ j
  bit_exclusion {s} clear r i j p q =
      (Reach-Inv clear r).excl i j (owns_of_critical holds (s.pc i).place p)
        (owns_of_critical holds (s.pc j).place q)

-- While the bit is clear every access of `lock` brings it nearer to its return, and so does every
-- access of `unlock` at any time.
pub record IsLive {M X W U : Type 0} (l : Lock M X W U) (locked : M → Bool) (effort : W → ℕ)
    (effort_out : U → ℕ) : Type 0 where
  pub in_falls :
      (i : ℕ) (m : M) (x : X) (w : W)
      → locked m ≡ false
      → Falls effort (effort w) (l.lock i m x w).2
  pub out_falls :
      (i : ℕ) (m : M) (x : X) (u : U) → Falls effort_out (effort_out u) (l.unlock i m x u).2

module _ {M X W U : Type 0} {l : Lock M X W U} {locked : M → Bool} {holds : U → Bool}
    (law : IsBitLock l locked holds) {effort : W → ℕ} {effort_out : U → ℕ}
    (live : IsLive l locked effort effort_out) where
  owner-Moves :
      (i : ℕ) (m : M) (t : Thread X W U) (p : Place W U)
      → owns_at holds p ≡ true
      → Moves l effort i m t p
  owner-Moves i m t inside h = tt
  owner-Moves i m t (unlocking u) h = tt
  owner-Moves i m t head h = cc
  owner-Moves i m t (locking w) h = cc
  owner-Moves i m t outside h = cc
  owner-Moves i m t finished h = cc

  free-Moves :
      (i : ℕ) (m : M) (t : Thread X W U) (p : Place W U)
      → locked m ≡ false
      → p ≢ finished
      → Moves l effort i m t p
  free-Moves i m t (locking w) h b = live.in_falls i m t.vars w h
  free-Moves i m t inside h b = tt
  free-Moves i m t (unlocking u) h b = tt
  free-Moves i m t head h b = tt
  free-Moves i m t outside h b = tt
  free-Moves i m t finished h b = absurd (b refl)

  abbrev rest : Thread X W U → ℕ
  rest = left l effort effort_out

  drive :
      (n : ℕ) (rounds : ℕ → ℕ) (s : System M (Thread X W U))
      → Inv law n s × AllCounted rounds s
      → (total rest n s.pc ≡ 0) ⊎ Drives (sync l) n rest s
  drive n rounds s (inv, counted) = elim (find_pos rest n s.pc) [
    | inl z ↦ inl z
    | inr (i, lt, pos) ↦ elim (Bool-cases (locked s.mem)) [
      | inl set ↦
          let (j, below, own) = inv.held set in
          inr (
            j,
            below,
            left-sync l effort effort_out live.out_falls j s.mem (s.pc j) (counted j).0
                (owner-Moves j s.mem (s.pc j) (s.pc j).place own),
          )
      | inr clear ↦ inr (
        i,
        lt,
        left-sync l effort effort_out live.out_falls i s.mem (s.pc i) (counted i).0 (
            free-Moves i s.mem (s.pc i) (s.pc i).place clear
              (busy-ne-finished l effort effort_out (s.pc i) pos)),
      )
    ]
  ]

  pub bit_completion :
      {n : ℕ} {m : M} {x : X} {rounds : ℕ → ℕ} {s : System M (Thread X W U)}
      → locked m ≡ false
      → Reach (sync l) n (begin m x rounds) s
      → Completes l n s
  bit_completion {n} {rounds = rounds} {s = s} clear r =
      let (is, below, end) =
        can_finish (sync l) n rest (λ t. Inv law n t × AllCounted rounds t)
          (λ t i lt (inv, c). (turn-Inv law n t i lt inv, turn-AllCounted l rounds t i c))
          (drive n rounds) (total rest n s.pc) s (Reach-Inv law clear r, Reach-AllCounted l r)
          (omega arith) in
      (is, below, λ i lt. left-zero l effort effort_out _ (end i lt))
