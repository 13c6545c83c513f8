-- ===== src/Common/Barrier/Separation.antt =====
-- What `barrier_wait` separates: the calls that a thread has left and the others have entered.
use shm_sync.Prelude.{ℕ, zero, suc, ◌+◌, ◌^◌, ◌≤◌, ◌<◌, ◌≡◌, update, arith, refl}
use shm_sync.Interleaving.{System, turn, Reach, Reach-induction}
use shm_sync.Common.Barrier.{
  Counters, barrier_init, Place, outside, counted, scanning, finished, Thread, wait_at,
  barrier_wait, begin,
}

-- In a call, behind the increment.
abbrev pub inside_at : Place → ℕ
inside_at outside = 0
inside_at finished = 0
inside_at _ = 1

-- How many calls the thread has entered.
abbrev pub entered : Thread → ℕ
entered t = t.passed + inside_at t.place

-- The threads below this one have been seen at the thread's own level.
abbrev seen : ℕ → Place → ℕ
seen n outside = n
seen n finished = n
seen n counted = 0
seen n (scanning my_level thr) = thr

pub record Inv (n calls : ℕ) (ctr : Counters) (pc : ℕ → Thread) : Type 0 where
  pub counts : (i : ℕ) → i < n → ctr i ≡ entered (pc i)
  pub bounded : (i : ℕ) → ((pc i).calls ≡ calls) × (entered (pc i) ≤ calls)
  pub level : (i v k : ℕ) → i < n → (pc i).place ≡ scanning v k → v ≡ ctr i
  pub ahead : (i t : ℕ) → i < n → t < n → t < seen n (pc i).place → ctr i ≤ ctr t
  pub through : (i : ℕ) → (pc i).place ≡ finished → (pc i).passed ≡ calls
  pub apart : (i t : ℕ) → i < n → t < n → (pc i).passed ≤ ctr t

barrier_init-zero : (n : ℕ) (ctr : Counters) (i : ℕ) → i < n → barrier_init n ctr i ≡ 0
unfolding barrier_init
barrier_init-zero zero ctr i h = absurd (omega arith)
barrier_init-zero (suc n) ctr i h = ground (arith, barrier_init-zero n ctr i)

module _ {n calls : ℕ} (small : calls < 2 ^ 64) {ctr : Counters} {pc : ℕ → Thread}
    (inv : Inv n calls ctr pc) (i : ℕ) (below : i < n) where
  open inv use {counts, bounded, level, ahead, through, apart}

  Move : Place → Type 0
  Move p = let (ctr', t') = wait_at n i ctr (pc i) p in Inv n calls ctr' (update pc i t')

  wait_at-Inv : (p : Place) → (pc i).place ≡ p → Move p
  unfolding wait_at Move
  wait_at-Inv outside e = record {
    counts = λ j h. ground (arith, counts j, counts i, bounded i);
    bounded = λ j. ground (arith, bounded j, bounded i);
    level = λ j v k h q. ground (arith, level j v k);
    ahead = λ j t hj ht hs. ground (arith, ahead j t, ahead i t, counts i, bounded i);
    through = λ j q. ground (arith, through j, bounded i, through i);
    apart = λ j t hj ht. ground (arith, apart j t, apart i t, counts i, bounded i);
  }
  wait_at-Inv counted e = record {
    counts = λ j h. ground (arith, counts j, counts i);
    bounded = λ j. ground (arith, bounded j, bounded i);
    level = λ j v k h q. ground (arith, level j v k);
    ahead = λ j t hj ht hs. ground (arith, ahead j t);
    through = λ j q. ground (arith, through j, bounded i, through i);
    apart = λ j t hj ht. ground (arith, apart j t, apart i t);
  }
  wait_at-Inv (scanning my_level thr) e = record {
    counts = λ j h. ground (arith, counts j, counts i);
    bounded = λ j. ground (arith, bounded j, bounded i);
    level = λ j v k h q. ground (arith, level j v k, level i my_level thr);
    ahead = λ j t hj ht hs. ground (arith, ahead j t, ahead i t, level i my_level thr);
    through = λ j q. ground (arith, through j, bounded i, through i);
    apart = λ j t hj ht. ground (arith, apart j t, ahead i t, counts i);
  }
  wait_at-Inv finished e = record {
    counts = λ j h. ground (arith, counts j, counts i);
    bounded = λ j. ground (arith, bounded j, bounded i);
    level = λ j v k h q. ground (arith, level j v k);
    ahead = λ j t hj ht hs. ground (arith, ahead j t, ahead i t);
    through = λ j q. ground (arith, through j, bounded i, through i);
    apart = λ j t hj ht. ground (arith, apart j t, apart i t);
  }

pub turn-Inv :
    (n calls : ℕ)
    → calls < 2 ^ 64
    → (s : System Counters Thread) (i : ℕ) → i < n
    → Inv n calls s.mem s.pc
    → Inv n calls (turn (barrier_wait n) s i).mem (turn (barrier_wait n) s i).pc
unfolding turn barrier_wait Move
turn-Inv n calls small s i below inv = wait_at-Inv small inv i below (s.pc i).place refl

pub Reach-Inv :
    {n calls : ℕ} (ctr : Counters) {s : System Counters Thread}
    → calls < 2 ^ 64
    → Reach (barrier_wait n) n (begin n ctr calls) s
    → Inv n calls s.mem s.pc
Reach-Inv {n} {calls} ctr small r =
    Reach-induction (barrier_wait n) (λ s. Inv n calls s.mem s.pc)
      (record {
        counts = λ i h. omega (arith, barrier_init-zero n ctr i h);
        bounded = λ i. (refl, omega arith);
        level = λ i v k h q. cc;
        ahead = λ i t hi ht hs. omega (arith, barrier_init-zero n ctr i hi);
        through = λ i q. cc;
        apart = λ i t hi ht. omega arith;
      })
      (turn-Inv n calls small) r

-- As long as no counter wraps (`calls < 2 ^ 64`): a thread's returned calls are no more than the
-- calls that any other thread has entered, and the counters tell the calls entered.
pub barrier_separates :
    {n calls : ℕ} (ctr : Counters) {s : System Counters Thread}
    → calls < 2 ^ 64
    → Reach (barrier_wait n) n (begin n ctr calls) s
    → (i j : ℕ) → i < n
    → j < n
    → ((s.pc i).passed ≤ entered (s.pc j)) × (s.mem j ≡ entered (s.pc j))
barrier_separates ctr small r i j hi hj =
    let inv = Reach-Inv ctr small r in
    (omega (arith, inv.apart i j hi hj, inv.counts j hj), inv.counts j hj)
