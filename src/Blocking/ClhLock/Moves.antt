-- ===== src/Blocking/ClhLock/Moves.antt =====
-- The invariant of `clhqueue_sync` on its queue of nodes, and the steps.
use shm_sync.Prelude.{
  ℕ, suc, ◌+◌, ◌-◌, ◌≤◌, ◌<◌, ◌≡◌, ◌≢◌, Bool, true, false, update, arith, refl, ap, ◌∙◌, dec_lt,
}
use shm_sync.Blocking.Sync.{Place, locking, inside, unlocking, outside}
use shm_sync.Blocking.ClhLock.{Memory, Worker, Access, store_locked, exchange_tail, load_pred}

-- From its exchange to its release a thread is queued, with a ticket.
abbrev pub queued_at : Place Access (Unit {0}) → Bool
queued_at (locking load_pred) = true
queued_at inside = true
queued_at (unlocking u) = true
queued_at _ = false

abbrev pub queued : Worker → Bool
queued t = queued_at t.place

abbrev pub owns_at : Place Access (Unit {0}) → Bool
owns_at inside = true
owns_at (unlocking u) = true
owns_at _ = false

abbrev pub owns : Worker → Bool
owns t = owns_at t.place

-- The node is marked, and not yet in the queue.
abbrev pub marked_at : Place Access (Unit {0}) → Bool
marked_at (locking exchange_tail) = true
marked_at _ = false

abbrev pub marked : Worker → Bool
marked t = marked_at t.place

-- `node k` is the node of ticket `k`, `node served` the last one unlocked, `node top` the tail.
pub record Inv (n : ℕ) (m : Memory) (pc : ℕ → Worker) (served top : ℕ) (node ticket : ℕ → ℕ)
    : Type 0 where
  pub ordered : served ≤ top
  pub at_tail : m.tail ≡ node top
  pub low : m.locked (node served) ≡ false
  pub high : (k : ℕ) → served < k → k ≤ top → m.locked (node k) ≡ true
  pub apart : (k l : ℕ) → served ≤ k → k ≤ top → served ≤ l → l ≤ top → node k ≡ node l → k ≡ l
  pub window : (i : ℕ) → queued (pc i) ≡ true → (served < ticket i) × (ticket i ≤ top)
  pub own : (i : ℕ) → queued (pc i) ≡ true → (pc i).vars.my_node ≡ node (ticket i)
  pub pred : (i : ℕ) → queued (pc i) ≡ true → (pc i).vars.my_pred ≡ node (ticket i - 1)
  pub distinct :
      (i j : ℕ) → queued (pc i) ≡ true → queued (pc j) ≡ true → ticket i ≡ ticket j → i ≡ j
  pub first : (i : ℕ) → owns (pc i) ≡ true → ticket i ≡ served + 1
  pub idle : (i k : ℕ) → queued (pc i) ≡ false → served ≤ k → k ≤ top → (pc i).vars.my_node ≢ node k
  pub idle_distinct :
      (i j : ℕ)
      → queued (pc i) ≡ false
      → queued (pc j) ≡ false
      → (pc i).vars.my_node ≡ (pc j).vars.my_node
      → i ≡ j
  pub covered :
      (t : ℕ) → served < t → t ≤ top → (i : ℕ) × (i < n) × (queued (pc i) ≡ true) × (ticket i ≡ t)
  pub ready : (i : ℕ) → marked (pc i) ≡ true → m.locked ((pc i).vars.my_node) ≡ true

module _ {n : ℕ} {m : Memory} {pc : ℕ → Worker} {served top : ℕ} {node ticket : ℕ → ℕ}
    (inv : Inv n m pc served top node ticket) (i : ℕ) (below : i < n) where
  open inv use {
    ordered, at_tail, low, high, apart, window, own, pred, distinct, first, idle, idle_distinct,
    covered, ready,
  }

  -- A step that touches neither the memory nor the variables, nor who is queued.
  module _ (t' : Worker) (q : queued t' ≡ queued (pc i))
      (o : owns t' ≡ true → ticket i ≡ served + 1) (r : marked t' ≡ false)
      (v : t'.vars ≡ (pc i).vars) where
    pub quiet : Inv n m (update pc i t') served top node ticket
    quiet = record {
      ordered = ordered;
      at_tail = at_tail;
      low = low;
      high = high;
      apart = apart;
      window = λ j h. ground (arith, window j, window i);
      own = λ j h. ground (arith, own j, own i);
      pred = λ j h. ground (arith, pred j, pred i);
      distinct = λ j l p s. ground (arith, distinct j l, distinct i l, distinct j i);
      first = λ j h. ground (arith, first j);
      idle = λ j k h a b. ground (arith, idle j k, idle i k);
      idle_distinct =
          λ j l p s e. ground (arith, idle_distinct j l, idle_distinct i l, idle_distinct j i);
      covered = λ t a b. let (j, lt, f, g) = covered t a b in (j, lt, ground arith, g);
      ready = λ j h. ground (arith, ready j);
    }

  -- The thread marks its node.
  module _ (e : (pc i).place ≡ locking store_locked) where
    abbrev pub marking : Worker
    marking = record (pc i) { place = locking exchange_tail }

    abbrev marks : ℕ → Bool
    marks = update m.locked ((pc i).vars.my_node) true

    pub mark : Inv n (record m { locked = marks }) (update pc i marking) served top node ticket
    mark = record {
      ordered = ordered;
      at_tail = at_tail;
      low = ground (arith, low, idle i served, ordered);
      high = λ k a b. ground (arith, high k);
      apart = apart;
      window = λ j h. ground (arith, window j);
      own = λ j h. ground (arith, own j);
      pred = λ j h. ground (arith, pred j);
      distinct = λ j l p s. ground (arith, distinct j l);
      first = λ j h. ground (arith, first j);
      idle = λ j k h a b. ground (arith, idle j k, idle i k);
      idle_distinct =
          λ j l p s f. ground (arith, idle_distinct j l, idle_distinct i l, idle_distinct j i);
      covered = λ t a b. let (j, lt, f, g) = covered t a b in (j, lt, ground arith, g);
      ready = λ j h. ground (arith, ready j);
    }

  -- The thread puts its node at the tail.
  module _ (e : (pc i).place ≡ locking exchange_tail) where
    abbrev pub joining : Worker
    joining = record (pc i) {
      place = locking load_pred;
      vars = record { my_node = (pc i).vars.my_node; my_pred = m.tail };
    }

    abbrev pub longer : ℕ → ℕ
    longer = update node (suc top) ((pc i).vars.my_node)

    outsider : (k : ℕ) → served ≤ k → k ≤ top → (pc i).vars.my_node ≢ node k
    outsider k a b = idle i k (rw e refl) a b

    pub join :
        Inv n
          (record m { tail = (pc i).vars.my_node })
          (update pc i joining)
          served
          (suc top)
          longer
          (update ticket i (suc top))
    join = record {
      ordered = omega (arith, ordered);
      at_tail = ground arith;
      low = ground (arith, low, ordered);
      high = λ k a b. ground (arith, high k, ready i);
      apart = λ k l a b c d f. ground (arith, apart k l, outsider k, outsider l);
      window = λ j h. ground (arith, window j, ordered);
      own = λ j h. ground (arith, own j, window j);
      pred = λ j h. ground (arith, pred j, window j, at_tail);
      distinct = λ j l p s f. ground (arith, distinct j l, window j, window l);
      first = λ j h. ground (arith, first j);
      idle = λ j k h a b. ground (arith, idle j k, idle_distinct i j);
      idle_distinct = λ j l p s f. ground (arith, idle_distinct j l);
      covered = λ t a b. elim (dec_lt top t) [
        | yes new ↦ (i, below, ground arith, ground arith)
        | no old ↦
            let (j, lt, f, g) = covered t a (omega arith) in (j, lt, ground arith, ground arith)
      ];
      ready = λ j h. ground (arith, ready j);
    }

  -- The thread finds its predecessor unlocked.
  module _ (e : (pc i).place ≡ locking load_pred)
      (found : m.locked ((pc i).vars.my_pred) ≡ false) where
    place_taken : (served < ticket i) × (ticket i ≤ top)
    place_taken = window i (rw e refl)

    pub turn_come : ticket i ≡ served + 1
    turn_come = elim (dec_lt served (ticket i - 1)) [
      | yes later ↦ absurd (
          ground (
            arith,
            found,
            pred i (rw e refl),
            high (ticket i - 1) later (omega (arith, place_taken)),
          ))
      | no next ↦ omega (arith, place_taken)
    ]

  -- The owner unlocks its node, and takes over the one before it.
  module _ (e : (pc i).place ≡ unlocking tt) where
    abbrev pub leaving : Worker
    leaving = record (pc i) {
      place = outside;
      vars = record (pc i).vars { my_node = (pc i).vars.my_pred };
    }

    last : ticket i ≡ served + 1
    last = first i (rw e refl)

    within : served + 1 ≤ top
    within = omega (arith, window i (rw e refl), last)

    own_node : (pc i).vars.my_node ≡ node (served + 1)
    own_node = own i (rw e refl) ∙ ap node last

    pred_node : (pc i).vars.my_pred ≡ node served
    pred_node =
        pred i (rw e refl) ∙ ap node (let e' : ticket i - 1 ≡ served = omega (arith, last) in e')

    pub release :
        Inv n
          (record m { locked = update m.locked ((pc i).vars.my_node) false })
          (update pc i leaving)
          (served + 1)
          top
          node
          ticket
    release = record {
      ordered = within;
      at_tail = at_tail;
      low = ground (arith, own_node);
      high = λ k a b. ground (arith, high k, own_node, apart k (served + 1), within);
      apart = λ k l a b c d f. apart k l (omega arith) b (omega arith) d f;
      window = λ j h. ground (arith, window j, distinct i j, last);
      own = λ j h. ground (arith, own j);
      pred = λ j h. ground (arith, pred j);
      distinct = λ j l p s f. ground (arith, distinct j l);
      first = λ j h. ground (arith, first j, distinct i j, last);
      idle = λ j k h a b. ground (arith, idle j k, pred_node, apart served k, ordered);
      idle_distinct = λ j l p s f.
          ground (arith, idle_distinct j l, idle j served, idle l served, pred_node, ordered);
      covered = λ t a b.
          let (j, lt, f, g) = covered t (omega arith) b in (j, lt, ground (arith, last), g);
      ready = λ j h. ground (arith, ready j, own_node, idle j (served + 1), within);
    }
