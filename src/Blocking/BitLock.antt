-- ===== src/Blocking/BitLock.antt =====
-- A lock that is one bit of memory: what its two routines promise, and what the benchmark loop
-- gets from them.
pub mod Progress
use shm_sync.Prelude.{ℕ, ◌<◌, ◌≡◌, Bool, true, false, update, arith, ℕ_discrete, dec_lt, refl}
use shm_sync.Interleaving.{System, turn, Reach, Reach-induction}
use shm_sync.Blocking.Sync.{
  Next, goto, return, Lock, Place, head, locking, inside, unlocking, outside, finished, Thread,
  sync, sync_at, in_lock, in_unlock, critical, call,
}

-- From the return of `lock` a thread owns the bit, inside `unlock` as long as `holds` says.
abbrev pub owns_at : {W U : Type 0} → (U → Bool) → Place W U → Bool
owns_at holds inside = true
owns_at holds (unlocking u) = holds u
owns_at holds _ = false

-- What a step does to the bit and to the moving thread's ownership: nothing, or it takes the
-- bit, or it drops it.
pub data Effect (b o b' o' : Bool) : Type 0 where
  stay : b' ≡ b → o' ≡ o → Effect b o b' o'
  take : b ≡ false → b' ≡ true → o' ≡ true → Effect b o b' o'
  drop : o ≡ true → b' ≡ false → o' ≡ false → Effect b o b' o'

-- Who owns the bit after an access of `lock`, or of `unlock`.
abbrev pub owns_locked : {W : Type 0} → Next W → Bool
owns_locked (goto w) = false
owns_locked return = true

abbrev pub owns_unlocked : {U : Type 0} → (U → Bool) → Next U → Bool
owns_unlocked holds (goto u) = holds u
owns_unlocked holds return = false

-- `lock` takes the bit when it returns, and `unlock` drops it at one of its accesses.
pub record IsBitLock {M X W U : Type 0} (l : Lock M X W U) (locked : M → Bool) (holds : U → Bool)
    : Type 0 where
  pub locks :
      (i : ℕ) (m : M) (x : X) (w : W)
      → let (m', x', r) = l.lock i m x w in Effect (locked m) false (locked m') (owns_locked r)
  pub enters : holds l.leave ≡ true
  pub unlocks :
      (i : ℕ) (m : M) (x : X) (u : U)
      → let (m', x', r) = l.unlock i m x u in
        Effect (locked m) (holds u) (locked m') (owns_unlocked holds r)

lock-Effect :
    {W U : Type 0} (holds : U → Bool) {b o b' : Bool} (r : Next W)
    → Effect b o b' (owns_locked r)
    → Effect b o b' (owns_at holds (in_lock r))
lock-Effect holds (goto w) e = e
lock-Effect holds return e = e

unlock-Effect :
    (W : Type 0) {U : Type 0} (holds : U → Bool) {b o b' : Bool} (r : Next U)
    → Effect b o b' (owns_unlocked holds r)
    → Effect b o b' (owns_at {W = W} holds (in_unlock r))
unlock-Effect W holds (goto u) e = e
unlock-Effect W holds return e = e

module _ {M X W U : Type 0} {l : Lock M X W U} {locked : M → Bool} {holds : U → Bool}
    (law : IsBitLock l locked holds) where
  abbrev pub owns : Thread X W U → Bool
  owns t = owns_at holds t.place

  sync_at-Effect :
      (i : ℕ) (m : M) (t : Thread X W U) (p : Place W U)
      → let (m', t') = sync_at l i m t p in
        Effect (locked m) (owns_at holds p) (locked m') (owns t')
  unfolding sync_at
  sync_at-Effect i m t head = stay refl (ground arith)
  sync_at-Effect i m t (locking w) = lock-Effect holds _ (law.locks i m t.vars w)
  sync_at-Effect i m t inside = stay refl law.enters
  sync_at-Effect i m t (unlocking u) = unlock-Effect W holds _ (law.unlocks i m t.vars u)
  sync_at-Effect i m t outside = stay refl refl
  sync_at-Effect i m t finished = stay refl refl

  pub record Inv (n : ℕ) (s : System M (Thread X W U)) : Type 0 where
    pub excl : (i j : ℕ) → owns (s.pc i) ≡ true → owns (s.pc j) ≡ true → i ≡ j
    pub taken : (i : ℕ) → owns (s.pc i) ≡ true → locked s.mem ≡ true
    pub held : locked s.mem ≡ true → (i : ℕ) × (i < n) × (owns (s.pc i) ≡ true)

  move-Inv :
      (n : ℕ) (s : System M (Thread X W U)) (i : ℕ) (m' : M) (t' : Thread X W U)
      → i < n
      → Effect (locked s.mem) (owns (s.pc i)) (locked m') (owns t')
      → Inv n s
      → Inv n (record { mem = m'; pc = update s.pc i t' })
  move-Inv n s i m' t' lt e inv = record {
    excl = λ j k. moved-excl j k e;
    taken = λ j. moved-taken j e;
    held = moved-held e;
  }
    where
      open inv use {excl, taken, held}

      moved-excl :
          (j k : ℕ)
          → Effect (locked s.mem) (owns (s.pc i)) (locked m') (owns t')
          → owns (update s.pc i t' j) ≡ true
          → owns (update s.pc i t' k) ≡ true
          → j ≡ k
      moved-excl j k (stay b o) p q = ground (arith, excl j k)
      moved-excl j k (take b b' o') p q = ground (arith, taken j, taken k)
      moved-excl j k (drop o b' o') p q = ground (arith, excl j k)

      moved-taken :
          (j : ℕ)
          → Effect (locked s.mem) (owns (s.pc i)) (locked m') (owns t')
          → owns (update s.pc i t' j) ≡ true
          → locked m' ≡ true
      moved-taken j (stay b o) p = ground (arith, taken j)
      moved-taken j (take b b' o') p = b'
      moved-taken j (drop o b' o') p = ground (arith, excl i j)

      moved-held :
          Effect (locked s.mem) (owns (s.pc i)) (locked m') (owns t')
          → locked m' ≡ true
          → (j : ℕ) × (j < n) × (owns (update s.pc i t' j) ≡ true)
      moved-held (stay b o) p = let (j, below, own) = held (cc) in (j, below, ground arith)
      moved-held (take b b' o') p = (i, lt, ground arith)
      moved-held (drop o b' o') p = absurd (ground arith)

  pub turn-Inv :
      (n : ℕ) (s : System M (Thread X W U)) (i : ℕ) → i < n → Inv n s → Inv n (turn (sync l) s i)
  unfolding turn sync
  turn-Inv n s i lt inv = move-Inv n s i _ _ lt (sync_at-Effect i s.mem (s.pc i) (s.pc i).place) inv
