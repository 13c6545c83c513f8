-- ===== src/Blocking/FilterLock/Invariant.antt =====
-- The invariant of `filter_lock`, and the steps.
use shm_sync.Prelude.{ℕ, ◌-◌, ◌≤◌, ◌<◌, ◌≡◌, ◌≢◌, Bool, true, false, update, arith}
use shm_sync.Blocking.Sync.{locking, inside, unlocking, outside}
use shm_sync.Blocking.FilterLock.{
  EnvVars, Worker, entry, store_level, exchange_victim, load_level, load_victim,
}

-- The highest level whose victim the thread has exchanged.
abbrev pub entered : Worker → ℕ
entered t = elim t.place [
  | locking a ↦ elim a [
    | entry ↦ 0
    | store_level ↦ t.vars.level - 1
    | exchange_victim ↦ t.vars.level - 1
    | load_level ↦ t.vars.level
    | load_victim ↦ t.vars.level
  ]
  | inside ↦ t.vars.level - 1
  | unlocking u ↦ t.vars.level - 1
  | _ ↦ 0
]

-- The highest level whose wait is over.
abbrev pub passed : Worker → ℕ
passed t = elim t.place [
  | locking a ↦ elim a [ entry ↦ 0 | _ ↦ t.vars.level - 1 ]
  | inside ↦ t.vars.level - 1
  | unlocking u ↦ t.vars.level - 1
  | _ ↦ 0
]

-- What the thread has stored in `levels` at least.
abbrev pub stored : Worker → ℕ
stored t = elim t.place [
  | locking a ↦ elim a [ entry ↦ 0 | store_level ↦ t.vars.level - 1 | _ ↦ t.vars.level ]
  | inside ↦ t.vars.level - 1
  | unlocking u ↦ t.vars.level - 1
  | _ ↦ 0
]

-- The threads whose levels the scan has found lower.
abbrev pub scanned : Worker → ℕ
scanned t = elim t.place [ locking a ↦ elim a [ load_level ↦ t.vars.k | _ ↦ 0 ] | _ ↦ 0 ]

abbrev pub climbs : Worker → Bool
climbs t = elim t.place [ locking a ↦ elim a [ entry ↦ false | _ ↦ true ] | _ ↦ false ]

abbrev pub owns : Worker → Bool
owns t = elim t.place [ inside ↦ true | unlocking _ ↦ true | _ ↦ false ]

-- The victim of a level that a thread has entered has entered the level as well. If its own wait
-- there is over, no other thread has entered the level.
pub record Inv (n : ℕ) (m : EnvVars) (pc : ℕ → Worker) : Type 0 where
  pub kept : (i : ℕ) → stored (pc i) ≤ m.levels i
  pub started : (i : ℕ) → climbs (pc i) ≡ true → 1 ≤ (pc i).vars.level
  pub topped : (i : ℕ) → owns (pc i) ≡ true → n ≤ (pc i).vars.level
  pub held : (i j : ℕ) → i < n → 1 ≤ j → j ≤ entered (pc i) → m.victims j < n
  pub behind : (i j : ℕ) → i < n → 1 ≤ j → j ≤ entered (pc i) → j ≤ entered (pc (m.victims j))
  pub alone :
      (i j k : ℕ) → 1 ≤ j → m.victims j ≡ i → j ≤ passed (pc i) → k < n → i ≢ k → entered (pc k) < j
  pub seen :
      (i k : ℕ)
      → m.victims (pc i).vars.level ≡ i
      → k < scanned (pc i)
      → k < n
      → i ≢ k
      → entered (pc k) < (pc i).vars.level

module _ {n : ℕ} {m : EnvVars} {pc : ℕ → Worker} (inv : Inv n m pc) (i : ℕ) (below : i < n) where
  open inv use {kept, started, topped, held, behind, alone, seen}

  -- A step that enters no level.
  module _ (levels : ℕ → ℕ) (t' : Worker) (same : entered t' ≡ entered (pc i))
      (kept' : (j : ℕ) → stored (update pc i t' j) ≤ levels j)
      (started' : climbs t' ≡ true → 1 ≤ t'.vars.level)
      (topped' : owns t' ≡ true → n ≤ t'.vars.level)
      (alone' : (j k : ℕ)
        → 1 ≤ j
        → m.victims j ≡ i
        → j ≤ passed t'
        → k < n
        → i ≢ k
        → entered (pc k) < j)
      (seen' : (k : ℕ)
        → m.victims t'.vars.level ≡ i
        → k < scanned t'
        → k < n
        → i ≢ k
        → entered (pc k) < t'.vars.level) where
    pub calm : Inv n (record m { levels = levels }) (update pc i t')
    calm = record {
      kept = kept';
      started = λ j h. ground (arith, started j);
      topped = λ j h. ground (arith, topped j);
      held = λ j l b p h. ground (arith, held j l, held i l);
      behind = λ j l b p h. ground (arith, behind j l, behind i l);
      alone = λ j l k p v h b ne. ground (arith, alone j l k, alone' l k);
      seen = λ j k v h b ne. ground (arith, seen j k, seen' k);
    }

  -- The thread becomes the victim of its level.
  module _ (e : (pc i).place ≡ locking exchange_victim) where
    abbrev pub entering : Worker
    entering = record (pc i) { place = locking load_level; vars = record (pc i).vars { k = 0 } }

    pub enter :
        Inv n (record m { victims = update m.victims (pc i).vars.level i }) (update pc i entering)
    enter = record {
      kept = λ j. ground (arith, kept j, kept i);
      started = λ j h. ground (arith, started j, started i);
      topped = λ j h. ground (arith, topped j);
      held = λ j l b p h. ground (arith, held j l, held i l, below);
      behind = λ j l b p h. ground (arith, behind j l, behind i l);
      alone = λ j l k p v h b ne. ground (arith, started i, alone j l k, alone i l k);
      seen = λ j k v h b ne. ground (arith, started i, seen j k);
    }

  -- The thread leaves the lock.
  module _ (e : (pc i).place ≡ unlocking tt) where
    pub leave :
        Inv n
          (record m { levels = update m.levels i 0 })
          (update pc i (record (pc i) { place = outside }))
    leave = record {
      kept = λ j. ground (arith, kept j);
      started = λ j h. ground (arith, started j);
      topped = λ j h. ground (arith, topped j);
      held = λ j l b p h. ground (arith, held j l);
      behind = λ j l b p h. ground (arith, behind j l, alone i l j, below);
      alone = λ j l k p v h b ne. ground (arith, alone j l k);
      seen = λ j k v h b ne. ground (arith, seen j k);
    }
