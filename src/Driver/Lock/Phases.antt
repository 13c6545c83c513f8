-- ===== src/Driver/Lock/Phases.antt =====
-- The calls of `barrier_wait` cut a thread's calls into phases.
use shm_sync.Prelude.{
  ℕ, zero, suc, ◌+◌, ◌%◌, ◌≡◌, Bool, List, [], ◌∷◌, ◌++◌, arith, Bool-cases, inl, inr, subst, ap,
  ◌∙◌,
}
use shm_sync.Driver.Calls.{Work, Call, call, Papi, repeat}
use shm_sync.Driver.Calls.Weigh.{weigh, weigh-append}
use shm_sync.Driver.Lock.{Protocol, execution, thread_f}
use shm_sync.Driver.Lock.Benchmark.{barrier_waits}

module _ {A : Type 0} (phase : A → ℕ) (waits : ℕ) where
  -- A call of the driver's construct comes in its phase, after `k` calls of `barrier_wait`.
  unfoldable pub InPhase : ℕ → Call A → Type 0
  InPhase k (call a) = k % waits ≡ phase a
  InPhase k _ = Unit {0}

  unfoldable pub Phased : ℕ → List (Call A) → Type 0
  Phased k [] = Unit {0}
  Phased k (c ∷ calls) = InPhase k c × Phased (barrier_waits c + k) calls

  pub Phased-append :
      (k : ℕ) (xs ys : List (Call A))
      → Phased k xs
      → Phased (weigh barrier_waits xs + k) ys
      → Phased k (xs ++ ys)
  unfolding Phased weigh
  Phased-append k [] ys px py = subst (λ m. Phased m ys) (omega arith) py
  Phased-append k (x ∷ xs) ys (p, px) py =
      (p, Phased-append (barrier_waits x + k) xs ys px (subst (λ m. Phased m ys) (omega arith) py))

  -- In phase, up to a multiple of `waits`.
  abbrev pub Through : ℕ → List (Call A) → Type 0
  Through k calls = Phased k calls × ((weigh barrier_waits calls + k) % waits ≡ 0)

  pub Through-append :
      (k : ℕ) (xs ys : List (Call A))
      → Through k xs
      → Through (weigh barrier_waits xs + k) ys
      → Through k (xs ++ ys)
  Through-append k xs ys (px, ex) (py, ey) =
      let count : weigh barrier_waits (xs ++ ys) + k
          ≡ weigh barrier_waits ys + (weigh barrier_waits xs + k) =
        omega (arith, weigh-append barrier_waits xs ys) in
      (Phased-append k xs ys px py, ap (λ m. m % waits) count ∙ ey)

  pub Through-repeat :
      (n : ℕ) (body : ℕ → List (Call A))
      → ((i k : ℕ) → k % waits ≡ 0 → Through k (body i))
      → (k : ℕ) → k % waits ≡ 0
      → Through k (repeat n body)
  unfolding Phased weigh repeat
  Through-repeat zero body p k h = (tt, ap (λ m. m % waits) (omega arith) ∙ h)
  Through-repeat (suc n) body p k h =
      let first = Through-repeat n body p k h in
      Through-append k (repeat n body) (body n) first
        (p n (weigh barrier_waits (repeat n body) + k) first.1)

  -- A thread's calls are in phase if those of an execution are.
  pub thread_f-Phased :
      (p : Protocol A) (papi : Papi)
      → ((tid nr_threads iter : ℕ) (sc_runs : Bool) (work : Work) (run exec k : ℕ)
          → k % waits ≡ 0
          → Through k (execution p papi tid nr_threads iter sc_runs work run exec))
      → (tid nr_threads nr_iter nr_exec : ℕ) (sc_runs : Bool) (work : Work) → 0 % waits ≡ 0
      → Phased 0 (thread_f p papi tid nr_threads nr_iter nr_exec sc_runs work)
  unfolding thread_f Phased InPhase
  thread_f-Phased p papi each tid n nr_iter nr_exec sc_runs work z =
      elim (Bool-cases (papi.thread_init tid)) [
        | inl e ↦
            rw e
              (Through-repeat _ _
                (λ run k h.
                  Through-repeat nr_exec _ (λ exec k' h'. each tid n _ sc_runs work run exec k' h')
                    k h)
                0 z).0
        | inr e ↦ rw e (tt, tt)
      ]
