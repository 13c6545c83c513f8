-- ===== src/Common/Papi/Clock.antt =====
-- common/ada_binding/papi/binding.cpp: the times of the threads, and the longest of them. A time
-- that did not start or end counts with 0, so a difference may be negative.
use mathlib.Core.Logic.{if_pos, if_neg}
use shm_sync.Prelude.{
  ℕ, ℤ, pos, negsuc, difference, int_leb, zero, suc, ◌+◌, ◌-◌, ◌≤◌, ◌<◌, ◌≡◌, ◌⊎◌, inl, inr, ltb,
  true, false, update, if◌then◌else◌, Option, none, some, refl, sym, ap, subst, ◌∙◌, ◌≢◌, arith,
  Bool-cases, ℕ_discrete, update_same,
}

-- `time_measure`.
pub record TimeMeasure : Type 0 where
  pub began : ℕ
  pub ended : ℕ
  pub elapsed : ℤ

abbrev pub max_nr_threads : ℕ
max_nr_threads = 28

-- `thread_time`.
abbrev pub Times : Type 0
Times = ℕ → TimeMeasure

-- `now` is what PAPI's clock returns. `none` is an access outside of the array.
pub papi_start_nsec : (now tid : ℕ) → Times → Option Times
papi_start_nsec now tid t =
    if ltb tid max_nr_threads then some (update t tid (record (t tid) { began = now })) else none

pub papi_end_nsec : (now tid : ℕ) → Times → Option Times
papi_end_nsec now tid t =
    if ltb tid max_nr_threads then some (update t tid (record (t tid) { ended = now })) else none

abbrev pub papi_get_nsec : ℕ → Times → ℤ
papi_get_nsec tid t = difference (t tid).ended (t tid).began

abbrev pub measured : ℕ → Times → Times
measured i t = update t i (record (t i) { elapsed = papi_get_nsec i t })

-- The loop of `PAPI_measure` from thread `i`, `todo` threads to go.
pub measure_from : ℕ → ℕ → ℤ → Times → ℤ × Times
measure_from zero i elapsed_nsec t = (elapsed_nsec, t)
measure_from (suc todo) i elapsed_nsec t =
    let t' = measured i t in
    measure_from todo (suc i)
      (if int_leb elapsed_nsec (t' i).elapsed then (t' i).elapsed else elapsed_nsec) t'

pub papi_measure : Times → ℤ × Times
papi_measure t = let t' = measured 0 t in measure_from (max_nr_threads - 1) 1 (t' 0).elapsed t'

abbrev pub initial : Times
initial _ = record { began = 0; ended = 0; elapsed = pos 0 }

int_leb_refl : (a : ℤ) → int_leb a a ≡ true
int_leb_refl (pos a) = ground arith
int_leb_refl (negsuc a) = ground arith

int_leb_trans : (a b c : ℤ) → int_leb a b ≡ true → int_leb b c ≡ true → int_leb a c ≡ true
int_leb_trans (pos a) (pos b) (pos c) h k = ground arith
int_leb_trans (pos a) (pos b) (negsuc c) h k = k
int_leb_trans (pos a) (negsuc b) c h k = absurd (ground arith)
int_leb_trans (negsuc a) b (pos c) h k = refl
int_leb_trans (negsuc a) (pos b) (negsuc c) h k = absurd (ground arith)
int_leb_trans (negsuc a) (negsuc b) (negsuc c) h k = ground arith

int_leb_total : (a b : ℤ) → int_leb a b ≡ false → int_leb b a ≡ true
int_leb_total (pos a) (pos b) h = ground arith
int_leb_total (pos a) (negsuc b) h = refl
int_leb_total (negsuc a) (pos b) h = absurd (ground arith)
int_leb_total (negsuc a) (negsuc b) h = ground arith

-- Measuring a thread leaves every thread's start, end and time as they were.
began-measured : (i : ℕ) (t : Times) (j : ℕ) → (measured i t j).began ≡ (t j).began
began-measured i t j =
    update_same (λ (x : TimeMeasure). x.began) t i (record (t i) { elapsed = papi_get_nsec i t })
      refl j

ended-measured : (i : ℕ) (t : Times) (j : ℕ) → (measured i t j).ended ≡ (t j).ended
ended-measured i t j =
    update_same (λ (x : TimeMeasure). x.ended) t i (record (t i) { elapsed = papi_get_nsec i t })
      refl j

get-measured : (i : ℕ) (t : Times) (j : ℕ) → papi_get_nsec j (measured i t) ≡ papi_get_nsec j t
get-measured i t j =
    update_same (λ (x : TimeMeasure). difference x.ended x.began) t i
      (record (t i) { elapsed = papi_get_nsec i t }) refl j

elapsed_self : (i : ℕ) (t : Times) → (measured i t i).elapsed ≡ papi_get_nsec i t
elapsed_self i t = ap (λ (x : TimeMeasure). x.elapsed) (if_pos (ℕ_discrete i i) refl _ _)

elapsed-other : (i : ℕ) (t : Times) (j : ℕ) → i ≢ j → (measured i t j).elapsed ≡ (t j).elapsed
elapsed-other i t j ne = ap (λ (x : TimeMeasure). x.elapsed) (if_neg (ℕ_discrete i j) ne _ _)

-- What the loop returns for the threads from `i` below `stop`, with the best time so far.
record Measures (i stop : ℕ) (best : ℤ) (t : Times) (r : ℤ × Times) : Type 0 where
  above : int_leb best r.0 ≡ true
  longest : (j : ℕ) → i ≤ j → j < stop → int_leb (papi_get_nsec j t) r.0 ≡ true
  reached : (r.0 ≡ best) ⊎ ((j : ℕ) × (i ≤ j) × (j < stop) × (r.0 ≡ papi_get_nsec j t))
  stored : (j : ℕ) → i ≤ j → j < stop → (r.1 j).elapsed ≡ papi_get_nsec j t
  before : (j : ℕ) → j < i → (r.1 j).elapsed ≡ (t j).elapsed
  kept : (j : ℕ) → ((r.1 j).began ≡ (t j).began) × ((r.1 j).ended ≡ (t j).ended)

abbrev best_of : ℤ → ℤ → ℤ
best_of best e = if int_leb best e then e else best

best_of-above :
    (best e : ℤ) → (int_leb best (best_of best e) ≡ true) × (int_leb e (best_of best e) ≡ true)
best_of-above best e = elim (Bool-cases (int_leb best e)) [
  | inl h ↦ rw h (h, int_leb_refl e)
  | inr h ↦ rw h (int_leb_refl best, int_leb_total best e h)
]

best_of-cases : (best e : ℤ) → (best_of best e ≡ best) ⊎ (best_of best e ≡ e)
best_of-cases best e = elim (Bool-cases (int_leb best e)) [
  | inl h ↦ rw h (inr refl)
  | inr h ↦ rw h (inl refl)
]

Measures-step :
    (i stop : ℕ) (best : ℤ) (t : Times) (r : ℤ × Times)
    → i < stop
    → Measures (suc i) stop (best_of best (measured i t i).elapsed) (measured i t) r
    → Measures i stop best t r
Measures-step i stop best t r below m =
    let e = elapsed_self i t in
    let (low, own) = best_of-above best (measured i t i).elapsed in
    record {
      above = int_leb_trans best _ r.0 low m.above;
      longest = λ j h k. elim (ℕ_discrete i j) [
        | yes here ↦
            rw (← here) (subst (λ x. int_leb x r.0 ≡ true) e (int_leb_trans _ _ r.0 own m.above))
        | no other ↦ rw (← get-measured i t j) (m.longest j (omega arith) k)
      ];
      reached = elim m.reached [
        | inr (j, h, k, q) ↦ inr (j, omega arith, k, q ∙ get-measured i t j)
        | inl q ↦ elim (best_of-cases best (measured i t i).elapsed) [
          | inl c ↦ inl (q ∙ c)
          | inr c ↦ inr (i, omega arith, below, q ∙ c ∙ e)
        ]
      ];
      stored = λ j h k. elim (ℕ_discrete i j) [
        | yes here ↦ rw (← here) (m.before i (omega arith) ∙ e)
        | no other ↦ m.stored j (omega arith) k ∙ get-measured i t j
      ];
      before = λ j h. m.before j (omega arith) ∙ elapsed-other i t j (omega arith);
      kept = λ j. ((m.kept j).0 ∙ began-measured i t j, (m.kept j).1 ∙ ended-measured i t j);
    }

measure_from-Measures :
    (todo i stop : ℕ) (best : ℤ) (t : Times)
    → i + todo ≡ stop
    → Measures i stop best t (measure_from todo i best t)
unfolding measure_from
measure_from-Measures zero i stop best t e = record {
  above = int_leb_refl best;
  longest = λ j h k. absurd (omega arith);
  reached = inl refl;
  stored = λ j h k. absurd (omega arith);
  before = λ j h. refl;
  kept = λ j. (refl, refl);
}
measure_from-Measures (suc todo) i stop best t e =
    Measures-step i stop best t _ (omega arith)
      (measure_from-Measures todo (suc i) stop _ (measured i t) (omega arith))

-- `PAPI_measure` returns the time of one of the 28 threads, and no thread's time is longer; it
-- stores every thread's own time and changes no start and no end of one.
pub papi_measure_longest :
    (t : Times) (tid : ℕ)
    → tid < max_nr_threads
    → let (longest, t') = papi_measure t in
      ((j : ℕ) × (j < max_nr_threads) × (longest ≡ papi_get_nsec j t))
      × (int_leb (papi_get_nsec tid t) longest ≡ true)
      × ((t' tid).elapsed ≡ papi_get_nsec tid t)
      × ((t' tid).began ≡ (t tid).began)
      × ((t' tid).ended ≡ (t tid).ended)
unfolding papi_measure
papi_measure_longest t tid h =
    let m = Measures-step 0 28 (measured 0 t 0).elapsed t _ (omega arith) (
      subst
        (λ b.
          Measures 1 28 b (measured 0 t)
            (measure_from 27 1 (measured 0 t 0).elapsed (measured 0 t)))
        (sym (best_same (measured 0 t 0).elapsed))
        (measure_from-Measures 27 1 28 (measured 0 t 0).elapsed (measured 0 t) (omega arith))) in
    (
      elim m.reached [
        | inl q ↦ (0, omega arith, q ∙ elapsed_self 0 t)
        | inr (j, g, k, q) ↦ (j, k, q)
      ],
      m.longest tid (omega arith) h,
      m.stored tid (omega arith) h,
      (m.kept tid).0,
      (m.kept tid).1,
    )
  where
    best_same : (b : ℤ) → best_of b b ≡ b
    best_same b = rw (int_leb_refl b) refl
