-- ===== src/Blocking/MutexStack/Balance.antt =====
-- The contents of the stack of mutexstack.cpp under producers and consumers.
use shm_sync.Prelude.{
  ℕ, ◌+◌, ◌≤◌, ◌<◌, ◌≡◌, Bool, true, false, ◌==◌, if◌then◌else◌, Option, none, some, List, [], ◌∷◌,
  length, total, total-update, total-const, refl, sym, subst, arith, Bool-cases, inl, inr,
}
use shm_sync.Interleaving.{System, turn, Reach, Reach-induction}
use shm_sync.Blocking.MutexStack.{
  Heap, Stack, threadsafe_stack, push, pop, Thread, after_pop, sync_producer, sync_consumer, sync,
}
use shm_sync.Blocking.MutexStack.Refinement.{
  Holds, push-Holds, pop-Holds, pop-empty, threadsafe_stack-Holds,
}

-- The elements that a thread has put in and taken out.
abbrev pub pushed : Thread → ℕ
pushed t = if t.producer then t.i else 0

abbrev pub taken : Thread → ℕ
taken t = if t.producer then 0 else t.i

-- No freed node was read, and the stack holds a list.
abbrev pub Content : Option Stack → List ℕ → Type 0
Content m xs = (st : Stack) × (m ≡ some st) × Holds st xs

abbrev Moved : (Option Stack × Thread) → Thread → List ℕ → Type 0
Moved (m, t') t xs =
    (xs' : List ℕ) × Content m xs'
    × (length xs' + taken t' + pushed t ≡ length xs + pushed t' + taken t)

consume-Moved :
    (st : Stack) (t : Thread) (xs : List ℕ)
    → t.producer ≡ false
    → Holds st xs
    → Moved (after_pop (some st) t (pop st)) t xs
unfolding after_pop
consume-Moved st t [] e h = rw (pop-empty st h) ([], (st, refl, h), omega arith)
consume-Moved st t (x ∷ xs) e h =
    let (st', p, h') = pop-Holds st x xs h in rw p (xs, (st', refl, h'), ground arith)

sync-Moved :
    (tid : ℕ) (st : Stack) (t : Thread) (xs : List ℕ)
    → Holds st xs
    → Moved (sync tid (some st) t) t xs
unfolding sync sync_producer sync_consumer
sync-Moved tid st t xs h = elim (Bool-cases (t.i == t.iter)) [
  | inl e ↦ rw e (xs, (st, refl, h), omega arith)
  | inr e ↦ elim (Bool-cases t.producer) [
    | inl f ↦ rw e (rw f (t.i ∷ xs, (push t.i st, refl, push-Holds t.i st xs h), ground arith))
    | inr f ↦ rw e (rw f (consume-Moved st (record t { producer = false }) xs refl h))
  ]
]

-- The threads before their loops.
abbrev pub begin : Heap → (ℕ → Bool) → (ℕ → ℕ) → System (Option Stack) Thread
begin h producer iter = record {
  mem = some (threadsafe_stack h);
  pc = λ i. record { producer = producer i; i = 0; iter = iter i };
}

-- The stack holds the constructor's node, and what was put in and not taken out.
abbrev pub Balanced : ℕ → System (Option Stack) Thread → Type 0
Balanced n s =
    (xs : List ℕ) × Content s.mem xs × (length xs + total taken n s.pc ≡ 1 + total pushed n s.pc)

turn-Balanced :
    {n : ℕ} (s : System (Option Stack) Thread) (i : ℕ)
    → i < n
    → Balanced n s
    → Balanced n (turn sync s i)
unfolding turn
turn-Balanced {n} s i lt (xs, (st, e, h), count) =
    let (xs', content, moved) =
      subst (λ m. Moved (sync i m (s.pc i)) (s.pc i) xs) (sym e) (sync-Moved i st (s.pc i) xs h) in
    (
      xs',
      content,
      omega (
        arith,
        total-update taken n s.pc i (sync i s.mem (s.pc i)).1 lt,
        total-update pushed n s.pc i (sync i s.mem (s.pc i)).1 lt,
        moved,
        count,
      ),
    )

-- Threads that run `sync_producer` and `sync_consumer` in any interleaving never read a freed node,
-- and the stack always holds one element more than was put in and not taken out: that of the
-- constructor.
pub stack-Balanced :
    {n : ℕ} (h : Heap) (producer : ℕ → Bool) (iter : ℕ → ℕ) {s : System (Option Stack) Thread}
    → ((a : ℕ) → h.unused ≤ a → h.cells a ≡ none)
    → Reach sync n (begin h producer iter) s
    → Balanced n s
stack-Balanced {n} h producer iter free r =
    Reach-induction sync (Balanced n)
      (
        0 ∷ [],
        (threadsafe_stack h, refl, threadsafe_stack-Holds h free),
        omega (
          arith,
          total-const taken n (begin h producer iter).pc 0 (λ i lt. idle (producer i)),
          total-const pushed n (begin h producer iter).pc 0 (λ i lt. idle (producer i)),
        ),
      )
      turn-Balanced r
  where
    idle : (b : Bool) → ◌≡◌ {A = ℕ} (if b then 0 else 0) 0
    idle true = refl
    idle false = refl
