-- ===== src/Blocking/ArrayLock/Moves.antt =====
-- The steps of `arraylock_sync`, and the invariant.
use shm_sync.Prelude.{
  ℕ, ◌+◌, ◌%◌, ◌^◌, ◌≤◌, ◌<◌, ◌≡◌, true, false, length, get_or, total, set, update, total-update,
  total-count, get_or-set, length-set, mod-window, suc-mod, arith, refl, sym, ap, ◌∙◌, update_same,
  dec_lt,
}
use native.Mathlib.Nat.{le_refl}
use shm_sync.Blocking.Sync.{locking, inside, unlocking, outside}
use shm_sync.Blocking.ArrayLock.{Memory, fetch_add, load_flag, clear_own, set_next, Worker}
use shm_sync.Blocking.ArrayLock.Invariant.{queued, owns, leaves, waits, taken, one_if, Inv}

module _ {n : ℕ} {m : Memory} {pc : ℕ → Worker} {served : ℕ} {ticket : ℕ → ℕ}
    (inv : Inv n m pc served ticket) (i : ℕ) (below : i < n) (small : m.tail < 2 ^ 63) where
  open inv use {room, slot, window, distinct, first, up, down, open_flag, counted, covered, fetched}

  few : m.tail ≤ served + n
  few = omega (arith, counted, total-count waits (λ t. ground arith) n pc)

  -- The moved thread in the two counts.
  shift :
      (t' : Worker)
      → (total waits n (update pc i t') + waits (pc i) ≡ total waits n pc + waits t')
        × (total taken n (update pc i t') + taken (pc i) ≡ total taken n pc + taken t')
  shift t' = (
    omega (arith, total-update waits n pc i t' below),
    omega (arith, total-update taken n pc i t' below),
  )

  -- A step that touches neither the memory nor who holds a ticket.
  module _ (t' : Worker) (q : queued t' ≡ queued (pc i)) (o : owns t' ≡ owns (pc i))
      (k : taken t' ≡ taken (pc i)) (v : t'.vars ≡ (pc i).vars)
      (s : leaves t' ≡ leaves (pc i)) where
    same_queued : (j : ℕ) → queued (update pc i t' j) ≡ queued (pc j)
    same_queued = update_same queued pc i t' q

    same_owns : (j : ℕ) → owns (update pc i t' j) ≡ owns (pc j)
    same_owns = update_same owns pc i t' o

    same_leaves : (j : ℕ) → leaves (update pc i t' j) ≡ leaves (pc j)
    same_leaves = update_same leaves pc i t' s

    pub quiet : Inv n m (update pc i t') served ticket
    quiet = record {
      room = room;
      slot = λ j h. update_same (λ w. w.vars) pc i t' v j ∙ slot j (sym (same_queued j) ∙ h);
      window = λ j h. window j (sym (same_queued j) ∙ h);
      distinct = λ j l p r. distinct j l (sym (same_queued j) ∙ p) (sym (same_queued l) ∙ r);
      first = λ j h. first j (sym (same_owns j) ∙ h);
      up = up;
      down = λ j l h. down j l (sym (same_leaves j) ∙ h);
      open_flag = λ h. let (j, lt, e) = open_flag h in (j, lt, same_leaves j ∙ e);
      counted = omega (arith, counted, (shift t').0, ap one_if q);
      covered = λ t p r. let (j, lt, e, f) = covered t p r in (j, lt, same_queued j ∙ e, f);
      fetched = omega (arith, fetched, (shift t').1, k);
    }

  -- The thread fetches a ticket.
  module _ (e : (pc i).place ≡ locking fetch_add) where
    abbrev pub fetching : Worker
    fetching = record (pc i) { place = locking load_flag; vars = m.tail % n }

    pub fetch :
        Inv n
          (record m { tail = (m.tail + 1) % 2 ^ 64 })
          (update pc i fetching)
          served
          (update ticket i m.tail)
    fetch = record {
      room = room;
      slot = λ j h. ground (arith, slot j);
      window = λ j h. ground (arith, window j, counted);
      distinct = λ j l p r. ground (arith, distinct j l, window j, window l);
      first = λ j h. ground (arith, first j);
      up = up;
      down = λ j l h. ground (arith, down j l);
      open_flag = λ h. let (j, lt, f) = open_flag h in (j, lt, ground arith);
      counted = ground (arith, counted, (shift fetching).0);
      covered = λ t p r. elim (dec_lt t m.tail) [
        | yes old ↦ let (j, lt, f, g) = covered t p old in (j, lt, ground arith, ground arith)
        | no new ↦ (i, below, ground arith, ground arith)
      ];
      fetched = ground (arith, fetched, (shift fetching).1);
    }

  -- The thread finds its flag up.
  module _ (e : (pc i).place ≡ locking load_flag)
      (found : get_or m.flags (pc i).vars false ≡ true) where
    abbrev pub entering : Worker
    entering = record (pc i) { place = inside }

    own_slot : (pc i).vars ≡ ticket i % n
    own_slot = slot i (rw e refl)

    own_window : (served ≤ ticket i) × (ticket i < m.tail)
    own_window = window i (rw e refl)

    turn_come : ticket i ≡ served
    turn_come =
        mod-window n served (ticket i) served own_window.0 (omega (arith, own_window, few))
          (le_refl served) (omega (arith, below))
          (sym own_slot ∙ up (pc i).vars (omega (arith, own_slot, below)) found)

    pub enter : Inv n m (update pc i entering) served ticket
    enter = record {
      room = room;
      slot = λ j h. ground (arith, slot j, own_slot);
      window = λ j h. ground (arith, window j, own_window);
      distinct = λ j l p r. ground (arith, distinct j l, distinct i l, distinct j i);
      first = λ j h. ground (arith, first j, turn_come);
      up = up;
      down = λ j l h. ground (arith, down j l);
      open_flag = λ h. let (j, lt, f) = open_flag h in (j, lt, ground arith);
      counted = ground (arith, counted, (shift entering).0);
      covered = λ t p r. let (j, lt, f, g) = covered t p r in (j, lt, ground arith, g);
      fetched = ground (arith, fetched, (shift entering).1);
    }

  -- The owner takes its flag down.
  module _ (e : (pc i).place ≡ unlocking clear_own) where
    abbrev pub clearing : Worker
    clearing = record (pc i) { place = unlocking set_next }

    owned : ticket i ≡ served
    owned = first i (rw e refl)

    served_slot : (pc i).vars ≡ served % n
    served_slot = slot i (rw e refl) ∙ ap (λ t. t % n) owned

    inside_array : (pc i).vars < length m.flags
    inside_array = omega (arith, served_slot, below, room)

    pub clear :
        Inv n
          (record m { flags = set m.flags (pc i).vars false })
          (update pc i clearing)
          served
          ticket
    clear = record {
      room = omega (arith, room, length-set m.flags (pc i).vars false);
      slot = λ j h. ground (arith, slot j, slot i);
      window = λ j h. ground (arith, window j, window i);
      distinct = λ j l p r. ground (arith, distinct j l, distinct i l, distinct j i);
      first = λ j h. ground (arith, first j, owned);
      up = λ l lt h.
          ground (arith, up l lt, get_or-set m.flags (pc i).vars l false false inside_array);
      down = λ j l h lt.
          ground (
            arith,
            up l lt,
            served_slot,
            get_or-set m.flags (pc i).vars l false false inside_array,
          );
      open_flag = λ h. (i, below, ground arith);
      counted = ground (arith, counted, (shift clearing).0);
      covered = λ t p r. let (j, lt, f, g) = covered t p r in (j, lt, ground arith, g);
      fetched = ground (arith, fetched, (shift clearing).1);
    }

  -- The owner puts the next thread's flag up.
  module _ (e : (pc i).place ≡ unlocking set_next) where
    abbrev pub leaving : Worker
    leaving = record (pc i) { place = outside }

    last : ticket i ≡ served
    last = first i (rw e refl)

    next_slot : ((pc i).vars + 1) % n ≡ (served + 1) % n
    next_slot = rw (slot i (rw e refl), last) (suc-mod served n)

    next_in_array : ((pc i).vars + 1) % n < length m.flags
    next_in_array = omega (arith, below, room)

    pub pass_on :
        Inv n
          (record m { flags = set m.flags (((pc i).vars + 1) % n) true })
          (update pc i leaving)
          (served + 1)
          ticket
    pass_on = record {
      room = omega (arith, room, length-set m.flags (((pc i).vars + 1) % n) true);
      slot = λ j h. ground (arith, slot j);
      window = λ j h. ground (arith, window j, distinct i j, last);
      distinct = λ j l p r. ground (arith, distinct j l);
      first = λ j h. ground (arith, first j, distinct i j, last, window j);
      up = λ l lt h. ground (
        arith,
        down i l,
        next_slot,
        get_or-set m.flags (((pc i).vars + 1) % n) l true false next_in_array,
      );
      down = λ j l h lt. absurd (ground (arith, first j, distinct i j, last));
      open_flag = λ h. absurd (
          ground (
            arith,
            next_slot,
            get_or-set m.flags (((pc i).vars + 1) % n) ((served + 1) % n) true false next_in_array,
          ));
      counted = ground (arith, counted, (shift leaving).0);
      covered = λ t p r.
          let (j, lt, f, g) = covered t (omega arith) r in (j, lt, ground (arith, last, f, g), g);
      fetched = ground (arith, fetched, (shift leaving).1);
    }
