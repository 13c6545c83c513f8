-- ===== src/Nonblocking/MpmcClient/Progress.antt =====
-- No state of the producers and consumers of boost_mpmc.cpp is stuck.
use shm_sync.Prelude.{
  ℕ, suc, ◌+◌, ◌-◌, ◌≤◌, ◌<◌, ◌≡◌, ◌⊎◌, inl, inr, true, ltb, Option, none, some, List, update,
  total, total-update, total-const, find_pos, each-zero, arith, refl, Bool-cases, dec_lt,
}
use shm_sync.Interleaving.{System, turn, run, Reach, Reach-induction, AllBelow, run-Reach, start}
use shm_sync.Interleaving.Progress.{Drives, can_finish}
use shm_sync.Nonblocking.SpscClient.{Queue}
use shm_sync.Nonblocking.MpmcClient.{
  after_push, after_pop, Role, producer, consumer, Thread, nr_nodes, sync_producer, sync_consumer,
  sync_as, sync, call,
}

-- What Boost documents: `push` fails only when the nodes are used up, and `pop` only when the queue
-- is empty.
pub record IsPool {Q : Type 0} (queue : Queue Q) (size : Q → ℕ) : Type 0 where
  pub pushes : (v : ℕ) (q q' : Q) → queue.push v q ≡ some q' → size q' ≡ suc (size q)
  pub pops : (q : Q) (v : ℕ) (q' : Q) → queue.pop q ≡ some (v, q') → size q ≡ suc (size q')
  pub full : (v : ℕ) (q : Q) → queue.push v q ≡ none → nr_nodes ≤ size q
  pub empty : (q : Q) → queue.pop q ≡ none → size q ≡ 0

-- The rounds that a thread has left.
abbrev pub left : Thread → ℕ
left t = t.nr_iter - t.i

-- Those of a thread that produces, and of one that consumes.
abbrev pub pushes_left : Thread → ℕ
pushes_left t = elim t.role [ producer ↦ left t | consumer ↦ 0 ]

abbrev pub pops_left : Thread → ℕ
pops_left t = elim t.role [ producer ↦ 0 | consumer ↦ left t ]

module _ {Q : Type 0} (queue : Queue Q) {size : Q → ℕ} (law : IsPool queue size) (n extra : ℕ) where
  -- The consumers have to pop what the queue holds and what is still to be pushed, but for `extra`
  -- elements.
  Balanced : System Q Thread → Type 0
  Balanced s = extra + total pops_left n s.pc ≡ size s.mem + total pushes_left n s.pc

  module _ (s : System Q Thread) (i : ℕ) (lt : i < n) where
    After : Q × Thread → Type 0
    After (q, t) = Balanced (record { mem = q; pc = update s.pc i t })

    shift :
        (q : Q) (t : Thread)
        → size q + pushes_left t + pops_left (s.pc i)
          ≡ size s.mem + pushes_left (s.pc i) + pops_left t
        → Balanced s
        → After (q, t)
    unfolding Balanced After
    shift q t e b =
        omega (
          arith,
          total-update pops_left n s.pc i t lt,
          total-update pushes_left n s.pc i t lt,
          b,
          e,
        )

    pushed :
        (s.pc i).role ≡ producer
        → (s.pc i).i < (s.pc i).nr_iter
        → (r : Option Q) → queue.push (s.pc i).i s.mem ≡ r
        → Balanced s
        → After (after_push queue s.mem (s.pc i) r)
    pushed e more none f b = shift s.mem (s.pc i) refl b
    pushed e more (some q) f b =
        shift q (record (s.pc i) { i = suc (s.pc i).i })
          (ground (arith, law.pushes (s.pc i).i s.mem q f)) b

    popped :
        (s.pc i).role ≡ consumer
        → (s.pc i).i < (s.pc i).nr_iter
        → (r : Option (ℕ × Q)) → queue.pop s.mem ≡ r
        → Balanced s
        → After (after_pop queue s.mem (s.pc i) r)
    popped e more none f b = shift s.mem (s.pc i) refl b
    popped e more (some (v, q)) f b =
        shift q (record (s.pc i) { i = suc (s.pc i).i; value = v })
          (ground (arith, law.pops s.mem v q f)) b

    keep : (r : Role) → (s.pc i).role ≡ r → Balanced s → After (sync_as queue r s.mem (s.pc i))
    unfolding sync_as sync_producer sync_consumer
    keep producer e b = elim (Bool-cases (ltb (s.pc i).i (s.pc i).nr_iter)) [
      | inl more ↦ rw more (pushed e (ground arith) (queue.push (s.pc i).i s.mem) refl b)
      | inr last ↦ rw last (shift s.mem (s.pc i) refl b)
    ]
    keep consumer e b = elim (Bool-cases (ltb (s.pc i).i (s.pc i).nr_iter)) [
      | inl more ↦ rw more (popped e (ground arith) (queue.pop s.mem) refl b)
      | inr last ↦ rw last (shift s.mem (s.pc i) refl b)
    ]

    turn-Balanced : Balanced s → Balanced (turn (sync queue) s i)
    unfolding turn sync After
    turn-Balanced b = keep (s.pc i).role refl b

  more_rounds : (t : Thread) → t.i < t.nr_iter → ltb t.i t.nr_iter ≡ true
  more_rounds t more = ground arith

  Reach-Balanced : {s t : System Q Thread} → Balanced s → Reach (sync queue) n s t → Balanced t
  Reach-Balanced b r = Reach-induction (sync queue) Balanced b turn-Balanced r

  push_shortens :
      (q : Q) (t : Thread) (r : Option Q)
      → queue.push t.i q ≡ r
      → size q < nr_nodes
      → t.i < t.nr_iter
      → left (after_push queue q t r).1 < left t
  push_shortens q t none f room more = absurd (omega (arith, law.full t.i q f))
  push_shortens q t (some q') f room more = omega arith

  pop_shortens :
      (q : Q) (t : Thread) (r : Option (ℕ × Q))
      → queue.pop q ≡ r
      → 0 < size q
      → t.i < t.nr_iter
      → left (after_pop queue q t r).1 < left t
  pop_shortens q t none f held more = absurd (omega (arith, law.empty q f))
  pop_shortens q t (some (v, q')) f held more = omega arith

  -- A call that is bound to succeed shortens the work.
  shortens :
      (q : Q) (t : Thread) (r : Role)
      → t.i < t.nr_iter
      → (r ≡ producer → size q < nr_nodes)
      → (r ≡ consumer → 0 < size q)
      → left (sync_as queue r q t).1 < left t
  unfolding sync_as sync_producer sync_consumer
  shortens q t producer more room held =
      rw (more_rounds t more) (push_shortens q t (queue.push t.i q) refl (room refl) more)
  shortens q t consumer more room held =
      rw (more_rounds t more) (pop_shortens q t (queue.pop q) refl (held refl) more)

  someone :
      (w : Thread → ℕ) (pc : ℕ → Thread) → 0 < total w n pc → (i : ℕ) × (i < n) × (0 < w (pc i))
  someone w pc pos = elim (find_pos w n pc) [ inl z ↦ absurd (omega arith) | inr found ↦ found ]

  module _ (few : extra ≤ nr_nodes) (s : System Q Thread) (b : Balanced s) where
    unfinished :
        (i : ℕ)
        → i < n
        → 0 < left (s.pc i)
        → ((s.pc i).role ≡ producer → size s.mem < nr_nodes)
        → ((s.pc i).role ≡ consumer → 0 < size s.mem)
        → Drives (sync queue) n left s
    unfolding sync
    unfinished i lt pos room held =
        (i, lt, shortens s.mem (s.pc i) (s.pc i).role (omega arith) room held)

    by_push : 0 < total pushes_left n s.pc → size s.mem < nr_nodes → Drives (sync queue) n left s
    by_push some_left room =
        let (i, lt, pos) = someone pushes_left s.pc some_left in
        unfinished i lt (ground arith) (λ e. room) (λ e. ground arith)

    by_pop : 0 < total pops_left n s.pc → 0 < size s.mem → Drives (sync queue) n left s
    by_pop some_left held =
        let (i, lt, pos) = someone pops_left s.pc some_left in
        unfinished i lt (ground arith) (λ e. ground arith) (λ e. held)

    none_left : total pops_left n s.pc ≡ 0 → total pushes_left n s.pc ≡ 0 → total left n s.pc ≡ 0
    none_left p q = omega (
      arith,
      total-const left n s.pc 0 (λ i lt.
          ground (arith, each-zero pops_left n s.pc p i lt, each-zero pushes_left n s.pc q i lt)),
    )

    drive : (total left n s.pc ≡ 0) ⊎ Drives (sync queue) n left s
    unfolding Balanced
    drive = elim (dec_lt 0 (total pops_left n s.pc)) [
      | yes pops ↦ elim (dec_lt 0 (size s.mem)) [
        | yes held ↦ inr (by_pop pops held)
        | no empty ↦ inr (by_push (omega arith) (omega arith))
      ]
      | no no_pops ↦ elim (dec_lt 0 (total pushes_left n s.pc)) [
        | yes pushes ↦ inr (by_push pushes (omega arith))
        | no no_pushes ↦ inl (none_left (omega arith) (omega arith))
      ]
    ]

-- The threads at the calls of their routines.
abbrev pub begin : {Q : Type 0} → Q → (ℕ → Role) → (ℕ → ℕ) → System Q Thread
begin q role iter = record { mem = q; pc = λ i. call (role i) (iter i) }

-- Over a queue that behaves as documented, if what it holds at first and the rounds of the producers
-- are together as many as the rounds of the consumers and `extra` more, where `extra` is at most the
-- number of nodes: from every state that they reach, some schedule brings all of them to the end of
-- their loops and leaves `extra` elements in the queue.
pub mpmc_completion :
    {Q : Type 0} (queue : Queue Q) {size : Q → ℕ}
    → IsPool queue size
    → (n extra : ℕ) (q : Q) (role : ℕ → Role) (iter : ℕ → ℕ) → extra ≤ nr_nodes
    → size q + total pushes_left n (begin q role iter).pc
      ≡ extra + total pops_left n (begin q role iter).pc
    → {s : System Q Thread} → Reach (sync queue) n (begin q role iter) s
    → (is : List ℕ) × AllBelow n is
      × ((i : ℕ) → i < n → left ((run (sync queue) s is).pc i) ≡ 0)
      × (size (run (sync queue) s is).mem ≡ extra)
unfolding Balanced
mpmc_completion queue {size} law n extra q role iter few equal {s} r =
    let b = Reach-Balanced queue law n extra (omega arith) r in
    let (is, below, end) =
      can_finish (sync queue) n left (Balanced queue law n extra) (turn-Balanced queue law n extra)
        (drive queue law n extra few) (total left n s.pc) s b (omega arith) in
    let u = run (sync queue) s is in
    (
      is,
      below,
      end,
      omega (
        arith,
        Reach-Balanced queue law n extra b (run-Reach (sync queue) is s start below),
        total-const pops_left n u.pc 0 (λ i lt. ground (arith, end i lt)),
        total-const pushes_left n u.pc 0 (λ i lt. ground (arith, end i lt)),
      ),
    )
