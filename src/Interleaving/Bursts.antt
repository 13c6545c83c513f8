-- ===== src/Interleaving/Bursts.antt =====
-- As Progress, where a thread may need several steps in a row to shorten its work.
use shm_sync.Prelude.{
  ℕ, zero, suc, ◌+◌, ◌≤◌, ◌<◌, ◌≡◌, ◌⊎◌, inl, inr, List, [], ◌∷◌, ◌++◌, replicate, total,
  total-update, each-zero, arith, update, ap, refl, ℕ_discrete, ◌∙◌,
}
use shm_sync.Interleaving.{System, turn, run, AllBelow}
use shm_sync.Interleaving.Progress.{Finishes}
use mathlib.Core.Logic.{if_pos}

AllBelow-append : (n : ℕ) (is js : List ℕ) → AllBelow n is → AllBelow n js → AllBelow n (is ++ js)
AllBelow-append n [] js p q = q
AllBelow-append n (i ∷ is) js p q = (p.0, AllBelow-append n is js p.1 q)

AllBelow-replicate : (n i k : ℕ) → i < n → AllBelow n (replicate k i)
AllBelow-replicate n i zero lt = tt
AllBelow-replicate n i (suc k) lt = (lt, AllBelow-replicate n i k lt)

module _ {M L : Type 0} (step : ℕ → M → L → M × L) (n : ℕ) (left : L → ℕ) where
  -- Some thread shortens its work by `k` steps.
  abbrev pub Bursts : System M L → Type 0
  Bursts s =
      (i : ℕ) × (i < n) × (k : ℕ) × (left ((run step s (replicate k i)).pc i) < left (s.pc i))

  run-append :
      (s : System M L) (is js : List ℕ) → run step s (is ++ js) ≡ run step (run step s is) js
  unfolding run
  run-append s [] js = refl
  run-append s (i ∷ is) js = run-append (turn step s i) is js

  total-burst :
      (k : ℕ) (s : System M L) (i : ℕ)
      → i < n
      → total left n (run step s (replicate k i)).pc + left (s.pc i)
        ≡ total left n s.pc + left ((run step s (replicate k i)).pc i)
  unfolding run turn
  total-burst zero s i lt = refl
  total-burst (suc k) s i lt =
      let a = (step i s.mem (s.pc i)).1 in
      let here : left (update s.pc i a i) ≡ left a =
        ap left (if_pos (ℕ_discrete i i) refl a (s.pc i)) in
      omega (arith, total-burst k (turn step s i) i lt, total-update left n s.pc i a lt, here)

  pub can_finish-Bursts :
      (P : System M L → Type 0)
      → ((s : System M L) (is : List ℕ) → AllBelow n is → P s → P (run step s is))
      → ((s : System M L) → P s → (total left n s.pc ≡ 0) ⊎ Bursts s)
      → (fuel : ℕ) (s : System M L) → P s
      → total left n s.pc ≤ fuel
      → Finishes step n left s
  unfolding run
  can_finish-Bursts P keep drive zero s p h = ([], tt, each-zero left n s.pc (omega arith))
  can_finish-Bursts P keep drive (suc fuel) s p h = elim (drive s p) [
    | inl done ↦ ([], tt, each-zero left n s.pc done)
    | inr (i, lt, k, less) ↦
        let (is, below, end) =
          can_finish-Bursts P keep drive fuel (run step s (replicate k i))
            (keep s (replicate k i) (AllBelow-replicate n i k lt) p)
            (omega (arith, total-burst k s i lt)) in
        (
          replicate k i ++ is,
          AllBelow-append n (replicate k i) is (AllBelow-replicate n i k lt) below,
          λ j low. ap (λ t. left (t.pc j)) (run-append s (replicate k i) is) ∙ end j low,
        )
  ]
