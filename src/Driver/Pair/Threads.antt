-- ===== src/Driver/Pair/Threads.antt =====
-- A weight summed over the calls of a producer or consumer, and over those of all threads.
use shm_sync.Prelude.{
  ℕ, ◌+◌, ◌*◌, ◌≡◌, Bool, true, not, ◌&&◌, ◌||◌, ltb, leb, if◌then◌else◌, List, [], ◌∷◌, ◌++◌,
  sum_below, sum_below-congr, sum_below-const, arith, refl, ◌∙◌, Bool-cases, inl, inr,
}
use shm_sync.Driver.Calls.{
  Call, Step, barrier_wait, get_real_nsec, enter_sample, call, create, join, dump_range,
  delete_samples, return_0, barrier_init, init_stats, Papi, repeat, when,
}
use shm_sync.Driver.Calls.Weigh.{weigh, weigh-append, weigh-repeat}
use shm_sync.Driver.Lock.{max_alloc_nr_threads, iter_per_thread}
use shm_sync.Driver.Lock.Threads.{in_calls, in_threads, no_threads}
use shm_sync.Driver.Pair.{Protocol, Options, worker, f_prod, f_cons, main}

-- Whether `main` comes as far as creating threads.
abbrev pub accepted : Options → Papi → Bool
accepted o papi =
    not (ltb 0 o.help || ltb 0 o.positional)
    && not (ltb max_alloc_nr_threads (2 * o.nr_pairs))
    && papi.library_init

-- The iterations of one execution for a thread of the given rank and index.
abbrev pub share : Options → (rank index run : ℕ) → ℕ
share o rank index run =
    if not o.sc_runs || leb rank run
    then iter_per_thread o.nr_iter (if o.sc_runs then run + 1 else o.nr_pairs) index
    else 0

module _ {A : Type 0} (p : Protocol A) (papi : Papi) (o : Options) (w : Call A → ℕ) where
  -- A weight that counts the iterations `k` of `sync` calls, each `c` times, and nothing else.
  pub weigh-worker :
      (sync : ℕ → A) (c tid rank index : ℕ)
      → papi.thread_init tid ≡ true
      → w barrier_wait ≡ 0
      → w get_real_nsec ≡ 0
      → ((t e r : ℕ) → w (enter_sample t e r) ≡ 0)
      → ((k : ℕ) → w (call (sync k)) ≡ c * k)
      → weigh w (worker p papi sync tid rank index o.nr_pairs o.nr_iter o.nr_exec o.sc_runs)
        ≡ sum_below (p.runs o.sc_runs o.nr_pairs) (λ run. o.nr_exec * (c * share o rank index run))
  unfolding worker weigh
  weigh-worker sync c tid rank index ok hb hc he hs = rw ok (
      weigh-repeat w _ _
      ∙ sum_below-congr _ _ (λ run. o.nr_exec * (c * share o rank index run))
          (λ run lt.
            weigh-repeat w o.nr_exec _
            ∙ sum_below-congr o.nr_exec _ (λ _. c * share o rank index run)
                (λ exec lt'. one run exec)
            ∙ sum_below-const o.nr_exec (c * share o rank index run)))
    where
      one :
          (run exec : ℕ)
          → w barrier_wait
              + weigh w (
                  when (not o.sc_runs || leb rank run) (
                    get_real_nsec
                    ∷ call (
                        sync (
                          iter_per_thread o.nr_iter
                            (if o.sc_runs then run + 1 else o.nr_pairs)
                            index))
                    ∷ get_real_nsec
                    ∷ enter_sample tid exec run
                    ∷ []))
            ≡ c * share o rank index run
      one run exec =
          let s =
            hs (iter_per_thread o.nr_iter (if o.sc_runs then run + 1 else o.nr_pairs) index) in
          let e = he tid exec run in
          elim (Bool-cases (not o.sc_runs || leb rank run)) [
            | inl q ↦ rw q (omega arith)
            | inr q ↦ rw q (omega arith)
          ]

  join_free : (n : ℕ) → weigh (in_threads w) (repeat n (λ tid. join tid ∷ join (tid + n) ∷ [])) ≡ 0
  unfolding in_calls weigh
  join_free n = no_threads (weigh w) n (λ tid. join tid ∷ join (tid + n) ∷ []) (λ i. refl)

  created :
      (n : ℕ) (f g : ℕ → List (Call A))
      → weigh (in_threads w) (repeat n (λ tid. create tid (f tid) ∷ create (tid + n) (g tid) ∷ []))
        ≡ sum_below n (λ t. weigh w (f t) + weigh w (g t))
  unfolding in_calls weigh
  created n f g = weigh-repeat (in_threads w) n _ ∙ sum_below-congr n _ _ (λ i lt. omega arith)

  weigh-steps :
      (start spawn wait end : List (Step A)) (n e r : ℕ) (b : Bool)
      → weigh (in_threads w) start ≡ 0
      → weigh (in_threads w) wait ≡ 0
      → weigh (in_threads w) end ≡ 0
      → weigh (in_threads w) (
          barrier_init (2 * n)
          ∷ init_stats (2 * n) e r
          ∷ (start
              ++ spawn
              ++ wait
              ++ dump_range b 0 n
                ∷ dump_range b n (2 * n)
                ∷ delete_samples
                ∷ (end ++ return_0 ∷ [])))
        ≡ weigh (in_threads w) spawn
  unfolding in_calls weigh
  weigh-steps start spawn wait end n e r b qi qj qd =
      let rest =
        dump_range b 0 n ∷ dump_range b n (2 * n) ∷ delete_samples ∷ (end ++ return_0 ∷ []) in
      omega (
        arith,
        weigh-append (in_threads w) (start ++ spawn ++ wait) rest,
        weigh-append (in_threads w) (start ++ spawn) wait,
        weigh-append (in_threads w) start spawn,
        weigh-append (in_threads w) end (return_0 ∷ []),
      )

  pub weigh-main :
      ((n : ℕ) → weigh (in_threads w) (p.init n) ≡ 0)
      → ((n : ℕ) → weigh (in_threads w) (p.delete n) ≡ 0)
      → weigh (in_threads w) (main p papi o) ≡ (
          if accepted o papi
          then sum_below o.nr_pairs (λ t.
            weigh w (f_prod p papi t t o.nr_pairs o.nr_iter o.nr_exec o.sc_runs)
            + weigh w (f_cons p papi t (t + o.nr_pairs) o.nr_pairs o.nr_iter o.nr_exec o.sc_runs))
          else 0)
  unfolding main in_calls weigh
  weigh-main quiet quiet' = elim (Bool-cases (ltb 0 o.help || ltb 0 o.positional)) [
    | inl e ↦ rw e refl
    | inr e ↦ elim (Bool-cases (ltb max_alloc_nr_threads (2 * o.nr_pairs))) [
      | inl f ↦ rw e (rw f refl)
      | inr f ↦ elim (Bool-cases papi.library_init) [
        | inl g ↦ rw e (
            rw f (
              rw g (
                weigh-steps (p.init o.nr_pairs) _
                  (repeat o.nr_pairs (λ tid. join tid ∷ join (tid + o.nr_pairs) ∷ []))
                  (p.delete o.nr_pairs) o.nr_pairs o.nr_exec (if o.sc_runs then o.nr_pairs else 1)
                  o.ovw_stats (quiet o.nr_pairs) (join_free o.nr_pairs) (quiet' o.nr_pairs)
                ∙ created o.nr_pairs _ _)))
        | inr g ↦ rw e (rw f (rw g refl))
      ]
    ]
  ]
