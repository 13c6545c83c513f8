-- ===== src/Blocking/FilterLock/Moves.antt =====
-- The steps of `filter_lock` keep its invariant.
use shm_sync.Prelude.{
  ℕ, suc, ◌-◌, ◌≤◌, ◌<◌, ◌≡◌, ◌≢◌, true, update, ◌==◌, ltb, leb, arith, refl, subst, sym,
  Bool-cases, inl, inr, ℕ_discrete,
}
use shm_sync.Interleaving.{System, turn}
use shm_sync.Blocking.Sync.{
  Place, head, locking, inside, unlocking, outside, finished, sync_at, in_lock,
}
use shm_sync.Blocking.FilterLock.{
  EnvVars, Access, entry, store_level, exchange_victim, load_level, load_victim, at_level, lock,
  unlock, filter, Worker, filter_lock,
}
use shm_sync.Blocking.FilterLock.Invariant.{
  entered, passed, stored, scanned, climbs, owns, Inv, calm, enter, leave,
}

module _ {n : ℕ} (m : EnvVars) (pc : ℕ → Worker) (i : ℕ) (below : i < n) where
  Move : Place Access (Unit {0}) → Type 0
  Move p = let (m', t') = sync_at (filter n) i m (pc i) p in Inv n m' (update pc i t')

  module _ (inv : Inv n m pc) where
    open inv use {kept, started, topped, held, behind, alone, seen}

    -- A step that leaves the memory as it is and ends no wait.
    still :
        (t' : Worker)
        → entered t' ≡ entered (pc i)
        → passed t' ≡ passed (pc i)
        → stored t' ≤ stored (pc i)
        → (climbs t' ≡ true → 1 ≤ t'.vars.level)
        → (owns t' ≡ true → n ≤ t'.vars.level)
        → ((k : ℕ)
            → m.victims t'.vars.level ≡ i
            → k < scanned t'
            → k < n
            → i ≢ k
            → entered (pc k) < t'.vars.level)
        → Inv n m (update pc i t')
    still t' same over low st tp se =
        calm inv i below m.levels t' same (λ j. ground (arith, kept j)) st tp
          (λ j k p v h b ne. alone i j k p v (omega (arith, h, over)) b ne) se

    -- Such a step that scans nothing.
    pause :
        (t' : Worker)
        → (entered t' ≡ entered (pc i))
          × (passed t' ≡ passed (pc i))
          × (stored t' ≤ stored (pc i))
          × (climbs t' ≡ true → 1 ≤ t'.vars.level)
          × (owns t' ≡ true → n ≤ t'.vars.level)
          × (scanned t' ≡ 0)
        → Inv n m (update pc i t')
    pause t' (same, over, low, st, tp, none_scanned) =
        still t' same over low st tp (λ k v h b ne. absurd (omega (arith, h, none_scanned)))

    -- The scan has found one more thread at a lower level.
    longer :
        (pc i).place ≡ locking load_level
        → ((k : ℕ)
            → m.victims (pc i).vars.level ≡ i
            → k < suc (pc i).vars.k
            → k < n
            → i ≢ k
            → entered (pc k) < (pc i).vars.level)
        → Inv n m (
            update pc i (record (pc i) {
              place = locking load_level;
              vars = record (pc i).vars { k = suc (pc i).vars.k };
            }))
    longer e se =
        still _ (ground arith) (ground arith) (ground arith) (λ h. started i (rw e refl))
          (λ h. ground arith) se

    -- The wait at the level is over, and the thread goes on to the next one.
    climb :
        (p : Place Access (Unit {0}))
        → (pc i).place ≡ p
        → climbs (pc i) ≡ true
        → entered (pc i) ≡ (pc i).vars.level
        → passed (pc i) ≡ (pc i).vars.level - 1
        → stored (pc i) ≡ (pc i).vars.level
        → ((k : ℕ)
            → m.victims (pc i).vars.level ≡ i
            → k < n
            → i ≢ k
            → entered (pc k) < (pc i).vars.level)
        → let (m', x, r) = at_level n (suc (pc i).vars.level) m in
          Inv n m' (update pc i (record (pc i) { place = in_lock r; vars = x }))
    unfolding at_level
    climb p e c en ps st over = elim (Bool-cases (ltb (suc (pc i).vars.level) n)) [
      | inl more ↦ rw more (
          calm inv i below m.levels _ (ground arith) (λ j. ground (arith, kept j))
            (λ h. ground arith) (λ h. ground arith)
            (λ j k p v h b ne. ended j k p v (omega (arith, h)) b ne) (λ k v h b ne. ground arith))
      | inr top ↦ rw top (
          calm inv i below m.levels _ (ground arith) (λ j. ground (arith, kept j))
            (λ h. ground arith) (λ h. ground arith)
            (λ j k p v h b ne. ended j k p v (omega (arith, h)) b ne) (λ k v h b ne. ground arith))
    ]
      where
        ended :
            (j k : ℕ)
            → 1 ≤ j
            → m.victims j ≡ i
            → j ≤ (pc i).vars.level
            → k < n
            → i ≢ k
            → entered (pc k) < j
        ended j k p v h b ne = elim (ℕ_discrete j (pc i).vars.level) [
          | yes at ↦
              subst (λ l. entered (pc k) < l) (sym at)
                (over k (subst (λ l. m.victims l ≡ i) at v) b ne)
          | no below_it ↦ alone i j k p v (omega arith) b ne
        ]

    move : (p : Place Access (Unit {0})) → (pc i).place ≡ p → Move p
    unfolding Move sync_at lock unlock at_level
    move head e = elim (Bool-cases ((pc i).iter == (pc i).nr_iter)) [
      | inl f ↦ rw f (pause _ (ground arith))
      | inr f ↦ rw f (pause _ (ground arith))
    ]
    move (locking entry) e = elim (Bool-cases (ltb 1 n)) [
      | inl more ↦ rw more (pause _ (ground arith))
      | inr one ↦ rw one (pause _ (ground arith))
    ]
    move (locking store_level) e =
        calm inv i below _ _ (ground arith) (λ j. ground (arith, kept j))
          (λ h. started i (rw e refl)) (λ h. ground arith)
          (λ j k p v h b ne. alone i j k p v (ground arith) b ne) (λ k v h b ne. ground arith)
    move (locking exchange_victim) e = enter inv i below e
    move (locking load_level) e = elim (Bool-cases (ltb (pc i).vars.k n)) [
      | inl more ↦ rw more (elim (Bool-cases ((pc i).vars.k == i)) [
        | inl own ↦ rw own (longer e (λ k v h b ne. ground (arith, seen i k)))
        | inr other ↦ rw other (elim (Bool-cases (leb (pc i).vars.level (m.levels (pc i).vars.k))) [
          | inl high ↦ rw high (pause _ (ground (arith, started i)))
          | inr low ↦ rw low (longer e (λ k v h b ne. ground (arith, seen i k, kept (pc i).vars.k)))
        ])
      ])
      | inr all ↦ rw all (
          climb _ e (rw e refl) (rw e refl) (rw e refl) (rw e refl)
            (λ k v b ne. ground (arith, seen i k)))
    ]
    move (locking load_victim) e = elim (Bool-cases (i == m.victims (pc i).vars.level)) [
      | inl mine ↦ rw mine (pause _ (ground (arith, started i)))
      | inr gone ↦
          rw gone
            (climb _ e (rw e refl) (rw e refl) (rw e refl) (rw e refl) (λ k v b ne. ground arith))
    ]
    move inside e = pause _ (ground (arith, topped i))
    move (unlocking u) e = leave inv i below e
    move outside e = pause _ (ground arith)
    move finished e = pause _ (ground arith)

pub turn-Inv :
    {n : ℕ} (s : System EnvVars Worker) (i : ℕ)
    → i < n
    → Inv n s.mem s.pc
    → let s' = turn (filter_lock n) s i in Inv n s'.mem s'.pc
unfolding turn filter_lock Move
turn-Inv s i below inv = move s.mem s.pc i below inv (s.pc i).place refl
