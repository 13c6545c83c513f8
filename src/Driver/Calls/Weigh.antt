-- ===== src/Driver/Calls/Weigh.antt =====
-- The sum of a weight over a list of calls.
use shm_sync.Prelude.{
  ℕ, zero, suc, ◌+◌, ◌*◌, ◌≡◌, Bool, true, false, ◌==◌, ltb, if◌then◌else◌, List, [], ◌∷◌, ◌++◌,
  sum_below, sum_below-const, arith, refl, ap, ℕ_discrete,
}
use shm_sync.Driver.Calls.{repeat, when}

module _ {ℓ} {A : Type ℓ} (w : A → ℕ) where
  unfoldable pub weigh : List A → ℕ
  weigh [] = 0
  weigh (x ∷ xs) = w x + weigh xs

  pub weigh-append : (xs ys : List A) → weigh (xs ++ ys) ≡ weigh xs + weigh ys
  unfolding weigh
  weigh-append [] ys = omega arith
  weigh-append (x ∷ xs) ys = omega (arith, weigh-append xs ys)

  pub weigh-repeat :
      (n : ℕ) (body : ℕ → List A) → weigh (repeat n body) ≡ sum_below n (λ i. weigh (body i))
  unfolding repeat weigh sum_below
  weigh-repeat zero body = refl
  weigh-repeat (suc n) body =
      omega (arith, weigh-append (repeat n body) (body n), weigh-repeat n body)

  pub weigh-when : (b : Bool) (xs : List A) → weigh (when b xs) ≡ (if b then weigh xs else 0)
  unfolding weigh
  weigh-when true xs = refl
  weigh-when false xs = refl

-- Sums of sums.
pub sum_below-add :
    (n : ℕ) (f g : ℕ → ℕ) → sum_below n (λ i. f i + g i) ≡ sum_below n f + sum_below n g
unfolding sum_below
sum_below-add zero f g = refl
sum_below-add (suc n) f g = omega (arith, sum_below-add n f g)

pub sum_below-mul : (n k : ℕ) (f : ℕ → ℕ) → sum_below n (λ i. k * f i) ≡ k * sum_below n f
unfolding sum_below
sum_below-mul zero k f = omega arith
sum_below-mul (suc n) k f = grind (arith, sum_below-mul n k f)

pub sum_below-swap :
    (n m : ℕ) (f : ℕ → ℕ → ℕ)
    → sum_below n (λ i. sum_below m (f i)) ≡ sum_below m (λ j. sum_below n (λ i. f i j))
unfolding sum_below
sum_below-swap zero m f = omega (arith, sum_below-const m 0)
sum_below-swap (suc n) m f =
    omega (arith, sum_below-swap n m f, sum_below-add m (λ j. sum_below n (λ i. f i j)) (f n))

-- A family that is zero but at one index.
pub sum_below-pick :
    (n k : ℕ) (f : ℕ → ℕ)
    → sum_below n (λ i. if i == k then f i else 0) ≡ (if ltb k n then f k else 0)
unfolding sum_below
sum_below-pick zero k f = ground arith
sum_below-pick (suc n) k f = elim (ℕ_discrete n k) [
  | yes e ↦ let fe : f n ≡ f k = ap f e in ground (arith, sum_below-pick n k f)
  | no ne ↦ ground (arith, sum_below-pick n k f)
]
