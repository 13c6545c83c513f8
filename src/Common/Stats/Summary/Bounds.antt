-- ===== src/Common/Stats/Summary/Bounds.antt =====
-- The mean and the largest sample of `doStats`.
use shm_sync.Prelude.{
  ℕ, ◌+◌, ◌*◌, ◌/◌, ◌%◌, ◌^◌, ◌≤◌, ◌<◌, ◌≡◌, ◌⊎◌, inl, List, [], ◌∷◌, length, refl, ap, dec_lt,
  arith, ◌∙◌,
}
use shm_sync.Common.Stats.Summary.{Floats, Result, accumulate, larger, do_stats}

abbrev pub sum : List ℕ → ℕ
sum [] = 0
sum (x ∷ xs) = x + sum xs

-- `x` stands in the list.
abbrev pub Occurs : ℕ → List ℕ → Type 0
Occurs x [] = ⊥
Occurs x (y ∷ ys) = (x ≡ y) ⊎ Occurs x ys

abbrev pub AllLe : ℕ → List ℕ → Type 0
AllLe m [] = Unit
AllLe m (x ∷ xs) = (x ≤ m) × AllLe m xs

accumulate-eq-sum : (acc : ℕ) (xs : List ℕ) → accumulate (λ a x. a + x) acc xs ≡ acc + sum xs
accumulate-eq-sum acc [] = omega arith
accumulate-eq-sum acc (x ∷ xs) = omega (arith, accumulate-eq-sum (acc + x) xs)

AllLe-mono : (m k : ℕ) (xs : List ℕ) → m ≤ k → AllLe m xs → AllLe k xs
AllLe-mono m k [] h a = tt
AllLe-mono m k (x ∷ xs) h a = (omega arith, AllLe-mono m k xs h a.1)

larger-accumulate :
    (m : ℕ) (xs : List ℕ)
    → (m ≤ accumulate larger m xs)
      × AllLe (accumulate larger m xs) xs
      × ((accumulate larger m xs ≡ m) ⊎ Occurs (accumulate larger m xs) xs)
larger-accumulate m [] = (omega arith, tt, inl refl)
larger-accumulate m (x ∷ xs) =
    let (above, all, which) = larger-accumulate (larger m x) xs in
    (ground arith, (ground arith, all), ground arith)

sum-le : (m : ℕ) (xs : List ℕ) → AllLe m xs → sum xs ≤ length xs * m
sum-le m [] h = omega arith
sum-le m (x ∷ xs) h = grind (arith, sum-le m xs h.1)

mul_mono : (a b k : ℕ) → a ≤ b → a * k ≤ b * k
mul_mono a b k h = grind arith

div-bounds : (s k : ℕ) → 0 < k → (s / k * k ≤ s) × (s < (s / k + 1) * k)
div-bounds s k h = omega arith

div-le : (s k m : ℕ) → 0 < k → s ≤ k * m → s / k ≤ m
div-le s k m h le = elim (dec_lt m (s / k)) [
  | yes lt ↦ absurd (omega (arith, div-bounds s k h, mul_mono (m + 1) (s / k) k (omega arith)))
  | no ge ↦ omega arith
]

module _ (F : Floats) (x : ℕ) (xs : List ℕ) (r : Result F.Double)
    (small : sum (x ∷ xs) < 2 ^ 63) where
  mean-eq : (do_stats F (x ∷ xs) r).mean ≡ sum (x ∷ xs) / length (x ∷ xs)
  unfolding do_stats
  mean-eq =
      ap (λ s. s / length (x ∷ xs))
        (ap (λ s. s % 2 ^ 64) (accumulate-eq-sum 0 (x ∷ xs)) ∙ omega arith)

  max-eq : (do_stats F (x ∷ xs) r).max ≡ accumulate larger x xs
  unfolding do_stats
  max-eq = refl

  -- If the samples' sum fits into `long long`, `doStats` finds for a list that is not empty the
  -- largest sample, and the mean rounded down, which is not above it; the median is left as it was.
  pub do_stats_bounds :
      let r' = do_stats F (x ∷ xs) r in
      Occurs r'.max (x ∷ xs)
      × AllLe r'.max (x ∷ xs)
      × (r'.mean * length (x ∷ xs) ≤ sum (x ∷ xs))
      × (sum (x ∷ xs) < (r'.mean + 1) * length (x ∷ xs))
      × (r'.mean ≤ r'.max)
      × (r'.median ≡ r.median)
  unfolding do_stats
  do_stats_bounds =
      let (above, all, which) = larger-accumulate x xs in
      let (low, high) = div-bounds (sum (x ∷ xs)) (length (x ∷ xs)) (omega arith) in
      let top =
        div-le (sum (x ∷ xs)) (length (x ∷ xs)) (accumulate larger x xs) (omega arith)
          (sum-le (accumulate larger x xs) (x ∷ xs) (above, all)) in
      (which, (above, all), rw mean-eq low, rw mean-eq high, rw mean-eq top, refl)
