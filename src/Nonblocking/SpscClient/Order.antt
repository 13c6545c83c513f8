-- ===== src/Nonblocking/SpscClient/Order.antt =====
-- What the consumer of boost_spsc.cpp and bqueue.cpp gets.
use shm_sync.Prelude.{
  ℕ, zero, suc, ◌+◌, ◌-◌, ◌≤◌, ◌<◌, ◌≡◌, Bool, false, ◌==◌, if◌then◌else◌, Option, none, some, List,
  [], ◌∷◌, ◌++◌, tabulate, length, get_or, subst, drop, ◌≢◌, arith, refl, sym, ap, ◌∙◌, Bool-cases,
  inl, inr,
}
use shm_sync.Nonblocking.SpscClient.{
  Queue, IsFifo, State, minus_one, after_push, after_pop, sync_producer, sync_consumer, Reach,
  start, produce, consume,
}

-- The loops before their first turns, over the queue `q`.
abbrev pub begin : {Q : Type 0} → Q → (iter iter' : ℕ) → State Q
begin q iter iter' = record {
  queue = q;
  producer = record { i = 0; iter = iter };
  consumer = record { i = 0; iter = iter'; value = 0; returned = false };
}

-- The queue holds the elements pushed and not popped, and the consumer has the last one popped.
pub record InOrder {Q : Type 0} (contents : Q → List ℕ) (pushed : ℕ → ℕ) (iter iter' : ℕ)
    (s : State Q) : Type 0 where
  pub behind : s.consumer.i ≤ s.producer.i
  pub ends : s.producer.i ≤ iter
  pub bound : s.producer.iter ≡ iter
  pub bound' : s.consumer.iter ≡ iter'
  pub held : contents s.queue ≡ tabulate s.consumer.i (s.producer.i - s.consumer.i) pushed
  pub got : 0 < s.consumer.i → s.consumer.value ≡ pushed (s.consumer.i - 1)
  pub stays : s.consumer.returned ≡ false

tabulate-last : (i n : ℕ) (f : ℕ → ℕ) → tabulate i (suc n) f ≡ tabulate i n f ++ (f (i + n) ∷ [])
tabulate-last i zero f = ap (λ k. f k ∷ []) {x = i} (omega arith)
tabulate-last i (suc n) f =
    ap (λ t. f i ∷ t)
      (tabulate-last (suc i) n f
        ∙ ap (λ k. tabulate (suc i) n f ++ (f k ∷ [])) {x = suc i + n} (omega arith))

module _ {Q : Type 0} (queue : Queue Q) {contents : Q → List ℕ} (law : IsFifo queue contents)
    (pushed : ℕ → ℕ) (checks : Bool) (iter iter' : ℕ)
    (positive : (k : ℕ) → k < iter → pushed k ≢ minus_one) where
  Ordered : State Q → Type 0
  Ordered = InOrder contents pushed iter iter'

  push-Ordered :
      (s : State Q) (r : Option Q)
      → s.producer.i < iter
      → queue.push (pushed s.producer.i) s.queue ≡ r
      → Ordered s
      → Ordered (after_push queue s r)
  unfolding Ordered after_push
  push-Ordered s none lt e o = o
  push-Ordered s (some q) lt e o =
      let more : suc (s.producer.i - s.consumer.i) ≡ suc s.producer.i - s.consumer.i =
        omega (arith, o.behind) in
      let next : s.consumer.i + (s.producer.i - s.consumer.i) ≡ s.producer.i =
        omega (arith, o.behind) in
      record {
        behind = omega (arith, o.behind);
        ends = omega arith;
        bound = o.bound;
        bound' = o.bound';
        held =
            law.pushes (pushed s.producer.i) s.queue q e
            ∙ ap (λ xs. xs ++ (pushed s.producer.i ∷ [])) o.held
            ∙ ap
                (λ k. tabulate s.consumer.i (s.producer.i - s.consumer.i) pushed ++ (pushed k ∷ []))
                (sym next)
            ∙ sym (tabulate-last s.consumer.i (s.producer.i - s.consumer.i) pushed)
            ∙ ap (λ n. tabulate s.consumer.i n pushed) more;
        got = o.got;
        stays = o.stays;
      }

  -- What a pop finds, if `n` elements are held from the consumer's next one on.
  front :
      (s : State Q) (v : ℕ) (q : Q) (n : ℕ)
      → v ∷ contents q ≡ tabulate s.consumer.i n pushed
      → (0 < n)
        × (v ≡ pushed s.consumer.i)
        × (contents q ≡ tabulate (suc s.consumer.i) (n - 1) pushed)
  front s v q zero e = absurd (omega (arith, ap length e))
  front s v q (suc n) e = (
    omega arith,
    ap (λ xs. get_or xs 0 0) e,
    ap (λ xs. drop 1 xs) e ∙ ap (λ k. tabulate (suc s.consumer.i) k pushed) {x = n} (omega arith),
  )

  pop-Ordered :
      (s : State Q) (r : Option (ℕ × Q))
      → queue.pop s.queue ≡ r
      → Ordered s
      → Ordered (after_pop queue checks s r)
  unfolding Ordered after_pop
  pop-Ordered s none e o = o
  pop-Ordered s (some (v, q)) e o =
      let (pos, is, rest) =
        front s v q (s.producer.i - s.consumer.i) (sym (law.pops s.queue v q e) ∙ o.held) in
      let size : s.producer.i - s.consumer.i - 1 ≡ s.producer.i - suc s.consumer.i = omega arith in
      let plain : (v == minus_one) ≡ false =
        ground (arith, positive s.consumer.i (omega (arith, o.ends)), is) in
      let moved : Ordered (record s {
        queue = q;
        consumer = record s.consumer { i = suc s.consumer.i; value = v };
      }) =
        record {
          behind = omega arith;
          ends = o.ends;
          bound = o.bound;
          bound' = o.bound';
          held = rest ∙ ap (λ n. tabulate (suc s.consumer.i) n pushed) size;
          got = λ h. is ∙ ap pushed (omega arith);
          stays = o.stays;
        } in
      elim (Bool-cases checks) [ inl c ↦ rw c (rw plain moved) | inr c ↦ rw c moved ]

  produce-Ordered : (s : State Q) → Ordered s → Ordered (sync_producer queue pushed s)
  unfolding sync_producer Ordered
  produce-Ordered s o = elim (Bool-cases (s.producer.i == s.producer.iter)) [
    | inl e ↦ rw e o
    | inr e ↦ rw e (
        push-Ordered s (queue.push (pushed s.producer.i) s.queue) (ground (arith, o.bound, o.ends))
          refl o)
  ]

  consume-Ordered : (s : State Q) → Ordered s → Ordered (sync_consumer queue checks s)
  unfolding sync_consumer Ordered
  consume-Ordered s o =
      let turn = after_pop queue checks s (queue.pop s.queue) in
      let next : Ordered (if s.consumer.i == s.consumer.iter then s else turn) =
        elim (Bool-cases (s.consumer.i == s.consumer.iter)) [
          | inl f ↦ rw f o
          | inr f ↦ rw f (pop-Ordered s (queue.pop s.queue) refl o)
        ] in
      subst
        (λ (b : Bool).
          Ordered (if b then s else if s.consumer.i == s.consumer.iter then s else turn))
        (sym o.stays) next

  -- Over a queue that keeps the order, in any interleaving of the two loops and however often a
  -- call fails: the value that the consumer has last popped is the one that the producer pushed in
  -- the same turn of its loop, the queue holds those pushed since, in order, and the consumer does
  -- not leave its loop early, as long as -1 is not pushed.
  pub received-InOrder :
      (q : Q)
      → contents q ≡ []
      → {s : State Q} → Reach queue pushed checks (begin q iter iter') s
      → InOrder contents pushed iter iter' s
  unfolding Ordered
  received-InOrder q empty start = record {
    behind = omega arith;
    ends = omega arith;
    bound = refl;
    bound' = refl;
    held = empty;
    got = λ h. absurd (omega arith);
    stays = refl;
  }
  received-InOrder q empty (produce {t} r) = produce-Ordered t (received-InOrder q empty r)
  received-InOrder q empty (consume {t} r) = consume-Ordered t (received-InOrder q empty r)
