-- ===== src/Driver/Pair/Totals.antt =====
-- What the producers of a benchmark put in, and what its consumers take out.
use shm_sync.Prelude.{
  ℕ, ◌+◌, ◌-◌, ◌*◌, ◌%◌, ◌≤◌, ◌<◌, ◌≡◌, Bool, true, if◌then◌else◌, sum_below, sum_below-congr,
  sum_below-const, arith, refl, sym, ap, ◌∙◌, Bool-cases, inl, inr,
}
use shm_sync.Driver.Calls.{Call, Papi}
use shm_sync.Driver.Calls.Weigh.{weigh, sum_below-swap, sum_below-mul, sum_below-add}
use shm_sync.Driver.Lock.Threads.{in_threads}
use shm_sync.Driver.Lock.Benchmark.{iterations}
use shm_sync.Driver.Lock.Shares.{shares_total, shares_short}
use shm_sync.Driver.Pair.{Protocol, Options, f_prod, f_cons, main}
use shm_sync.Driver.Pair.Threads.{accepted, share, weigh-worker, weigh-main}

-- What a driver's protocol has to do for the results on all drivers: `pushes` and `pops` tell what
-- its calls put in and take out.
pub record IsPair {A : Type 0} (p : Protocol A) (pushes pops : A → ℕ) : Type 0 where
  pub starts : (w : Call A → ℕ) (n : ℕ) → weigh (in_threads w) (p.init n) ≡ 0
  pub ends : (w : Call A → ℕ) (n : ℕ) → weigh (in_threads w) (p.delete n) ≡ 0
  pub pushed : (i t k : ℕ) → pushes (p.produce i t k) ≡ k
  pub not_pushed : (i t k : ℕ) → pushes (p.consume i t k) ≡ 0
  pub popped : (i t k : ℕ) → pops (p.consume i t k) ≡ k
  pub not_popped : (i t k : ℕ) → pops (p.produce i t k) ≡ 0
  pub rounds : (n : ℕ) (sc_runs : Bool) → 1 ≤ n → p.runs sc_runs n ≡ (if sc_runs then n else 1)

abbrev pub nr_runs : Options → ℕ
nr_runs o = if o.sc_runs then o.nr_pairs else 1

abbrev pub parties : Options → ℕ → ℕ
parties o run = if o.sc_runs then run + 1 else o.nr_pairs

module _ {A : Type 0} (p : Protocol A) (pushes pops : A → ℕ) (b : IsPair p pushes pops)
    (papi : Papi) (o : Options) (pos : 1 ≤ o.nr_pairs)
    (ok : (t : ℕ) → t < 2 * o.nr_pairs → papi.thread_init t ≡ true) where
  -- The iterations that `counted` tells of the threads, if it counts those of the producers `c`
  -- times and those of the consumers `d` times.
  total_of :
      (counted : A → ℕ) (c d : ℕ)
      → ((i t k : ℕ) → counted (p.produce i t k) ≡ c * k)
      → ((i t k : ℕ) → counted (p.consume i t k) ≡ d * k)
      → weigh (in_threads (iterations counted)) (main p papi o) ≡ (
          if accepted o papi
          then sum_below (nr_runs o) (λ run. sum_below o.nr_pairs (λ t.
            o.nr_exec * (c * share o t t run)
            + o.nr_exec * (d * share o t (p.dealt_to o.sc_runs o.nr_pairs (t + o.nr_pairs)) run)))
          else 0)
  unfolding iterations f_prod f_cons
  total_of counted c d hp hc =
      weigh-main p papi o (iterations counted) (b.starts (iterations counted))
        (b.ends (iterations counted))
      ∙ ap (λ k. if accepted o papi then k else 0)
          (sum_below-congr o.nr_pairs _ _ both ∙ sum_below-swap o.nr_pairs (nr_runs o) _)
    where
      both :
          (t : ℕ)
          → t < o.nr_pairs
          → weigh (iterations counted) (f_prod p papi t t o.nr_pairs o.nr_iter o.nr_exec o.sc_runs)
              + weigh
                  (iterations counted)
                  (f_cons p papi t (t + o.nr_pairs) o.nr_pairs o.nr_iter o.nr_exec o.sc_runs)
            ≡ sum_below (nr_runs o) (λ run.
              o.nr_exec * (c * share o t t run)
              + o.nr_exec * (d * share o t (p.dealt_to o.sc_runs o.nr_pairs (t + o.nr_pairs)) run))
      both t lt =
          let first =
            weigh-worker p papi o (iterations counted) (p.produce t t) c t t t (ok t (omega arith))
              refl refl (λ t' e r. refl) (hp t t)
            ∙ ap (λ r. sum_below r (λ run. o.nr_exec * (c * share o t t run)))
                (b.rounds o.nr_pairs o.sc_runs pos) in
          let index = p.dealt_to o.sc_runs o.nr_pairs (t + o.nr_pairs) in
          let rank : t + o.nr_pairs - o.nr_pairs ≡ t = omega arith in
          let second =
            weigh-worker p papi o (iterations counted) (p.consume t (t + o.nr_pairs)) d
              (t + o.nr_pairs) (t + o.nr_pairs - o.nr_pairs) index
              (ok (t + o.nr_pairs) (omega arith)) refl refl (λ t' e r. refl) (hc t (t + o.nr_pairs))
            ∙ ap
                (λ k.
                  sum_below (p.runs o.sc_runs o.nr_pairs)
                    (λ run. o.nr_exec * (d * share o k index run)))
                rank
            ∙ ap (λ r. sum_below r (λ run. o.nr_exec * (d * share o t index run)))
                (b.rounds o.nr_pairs o.sc_runs pos) in
          omega (
            arith,
            first,
            second,
            sum_below-add (nr_runs o) (λ run. o.nr_exec * (c * share o t t run))
                (λ run. o.nr_exec * (d * share o t index run)),
          )

  in_range : (run : ℕ) → run < nr_runs o → run < o.nr_pairs
  in_range run lt = elim (Bool-cases o.sc_runs) [ inl e ↦ ground arith | inr e ↦ ground arith ]

  -- If `main` comes as far as creating threads, the producers put in `nr_iter` elements in every
  -- execution of every run. Otherwise it creates no thread.
  pub produced :
      weigh (in_threads (iterations pushes)) (main p papi o)
      ≡ (if accepted o papi then nr_runs o * (o.nr_exec * o.nr_iter) else 0)
  produced =
      total_of pushes 1 0 (λ i t k. b.pushed i t k ∙ omega arith)
        (λ i t k. b.not_pushed i t k ∙ omega arith)
      ∙ ap (λ k. if accepted o papi then k else 0)
          (sum_below-congr (nr_runs o) _ (λ _. o.nr_exec * o.nr_iter)
              (λ run lt.
                sum_below-congr o.nr_pairs _ (λ t. o.nr_exec * share o t t run) (λ t _. omega arith)
                ∙ sum_below-mul o.nr_pairs o.nr_exec (λ t. share o t t run)
                ∙ ap (λ k. o.nr_exec * k)
                    (shares_total o.nr_pairs o.nr_iter run o.sc_runs (in_range run lt)))
            ∙ sum_below-const (nr_runs o) (o.nr_exec * o.nr_iter))

  -- What the consumers take out, if they deal the remainder by `index`.
  taken_by :
      (index : ℕ → ℕ)
      → ((t : ℕ) → p.dealt_to o.sc_runs o.nr_pairs (t + o.nr_pairs) ≡ index t)
      → weigh (in_threads (iterations pops)) (main p papi o) ≡ (
          if accepted o papi
          then sum_below
              (nr_runs o)
              (λ run. o.nr_exec * sum_below o.nr_pairs (λ t. share o t (index t) run))
          else 0)
  taken_by index dealt =
      total_of pops 0 1 (λ i t k. b.not_popped i t k ∙ omega arith)
        (λ i t k. b.popped i t k ∙ omega arith)
      ∙ ap (λ k. if accepted o papi then k else 0)
          (sum_below-congr (nr_runs o) _ _ (λ run lt.
            sum_below-congr o.nr_pairs _ (λ t. o.nr_exec * share o t (index t) run)
              (λ t _.
                ap (λ i. o.nr_exec * (0 * share o t t run) + o.nr_exec * (1 * share o t i run))
                  (dealt t)
                ∙ omega arith)
            ∙ sum_below-mul o.nr_pairs o.nr_exec (λ t. share o t (index t) run)))

  -- If the consumers deal the remainder among themselves as the producers do, they take out as much
  -- as the producers put in.
  pub all_consumed :
      ((t : ℕ) → p.dealt_to o.sc_runs o.nr_pairs (t + o.nr_pairs) ≡ t)
      → weigh (in_threads (iterations pops)) (main p papi o)
        ≡ weigh (in_threads (iterations pushes)) (main p papi o)
  all_consumed dealt =
      taken_by (λ t. t) dealt
      ∙ ap (λ k. if accepted o papi then k else 0)
          (sum_below-congr (nr_runs o) _ (λ _. o.nr_exec * o.nr_iter)
              (λ run lt.
                ap (λ k. o.nr_exec * k)
                  (shares_total o.nr_pairs o.nr_iter run o.sc_runs (in_range run lt)))
            ∙ sum_below-const (nr_runs o) (o.nr_exec * o.nr_iter))
      ∙ sym produced

  -- If there is at least one pair, PAPI is initialized in every thread, the consumers deal the
  -- remainder by their own numbers, which follow those of the producers, and `main` comes as far as
  -- creating threads: what all consumers of the benchmark take out in
  -- total falls short of what all producers put in, by the sum over the runs of `nr_exec` times the
  -- remainder of `nr_iter` by the number of pairs in the run.
  pub some_left :
      ((t : ℕ) → p.dealt_to o.sc_runs o.nr_pairs (t + o.nr_pairs) ≡ t + o.nr_pairs)
      → accepted o papi ≡ true
      → weigh (in_threads (iterations pops)) (main p papi o)
          + sum_below (nr_runs o) (λ run. o.nr_exec * (o.nr_iter % parties o run))
        ≡ weigh (in_threads (iterations pushes)) (main p papi o)
  some_left dealt go =
      let taken : ℕ → ℕ =
        λ run. o.nr_exec * sum_below o.nr_pairs (λ t. share o t (t + o.nr_pairs) run) in
      let out : weigh (in_threads (iterations pops)) (main p papi o) ≡ sum_below (nr_runs o) taken =
        taken_by (λ t. t + o.nr_pairs) dealt
        ∙ ap (λ a. if a then sum_below (nr_runs o) taken else 0) go in
      let put_in : weigh (in_threads (iterations pushes)) (main p papi o)
          ≡ nr_runs o * (o.nr_exec * o.nr_iter) =
        produced ∙ ap (λ a. if a then nr_runs o * (o.nr_exec * o.nr_iter) else 0) go in
      let each_run : sum_below (nr_runs o)
            (λ run. taken run + o.nr_exec * (o.nr_iter % parties o run))
          ≡ sum_below (nr_runs o) (λ _. o.nr_exec * o.nr_iter) =
        sum_below-congr (nr_runs o) _ _ (λ run lt.
          let e = shares_short o.nr_pairs o.nr_iter run o.sc_runs (in_range run lt) in
          grind (arith, ap (λ k. o.nr_exec * k) e)) in
      omega (
        arith,
        out,
        put_in,
        each_run,
        sum_below-const (nr_runs o) (o.nr_exec * o.nr_iter),
        sum_below-add (nr_runs o) taken (λ run. o.nr_exec * (o.nr_iter % parties o run)),
      )
