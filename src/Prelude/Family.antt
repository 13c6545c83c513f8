-- ===== src/Prelude/Family.antt =====
-- Families `ℕ → A` indexed by thread: a write at one index, and sums over the first `n`.
use native.Mathlib.Omega.{arith}
use native.Mathlib.Decide.{dec_lt, ℕ_discrete}
use mathlib.Core.Logic.{inl, inr, ite, if_neg, if_pos, ◌⊎◌, ◌≢◌}
use mathlib.Core.Path.{refl, ap, subst, ◌∙◌, ◌≡◌}
use Prim.Native.Nat.{ℕ, zero, suc, ◌*◌, ◌+◌, ◌<◌, ◌≤◌}

-- The family `f`, with `value` at index `at`.
abbrev pub update {ℓ} : {A : Type ℓ} (f : ℕ → A) (at : ℕ) (value : A) → ℕ → A
update f at value = λ j. ite (ℕ_discrete at j) value (f j)

-- What holds at the new value and at every old one holds all over the family.
pub update_all {ℓ κ} :
    {A : Type ℓ} (P : ℕ → A → Type κ) (f : ℕ → A) (i : ℕ) (a : A)
    → ((j : ℕ) → P j (f j))
    → P i a
    → (j : ℕ) → P j (update f i a j)
update_all P f i a old new j = elim (ℕ_discrete i j) [
  | yes e ↦ rw (if_pos (ℕ_discrete i j) e) (subst (λ k. P k a) e new)
  | no ne ↦ rw (if_neg (ℕ_discrete i j) ne) (old j)
]

-- A write that does not change an aspect of the value leaves the aspect as it was everywhere.
pub update_same {ℓ κ} :
    {A : Type ℓ} {B : Type κ} (w : A → B) (f : ℕ → A) (i : ℕ) (a : A)
    → w a ≡ w (f i)
    → (j : ℕ) → w (update f i a j) ≡ w (f j)
update_same w f i a same j = elim (ℕ_discrete i j) [
  | yes e ↦ ap w (if_pos (ℕ_discrete i j) e a (f j)) ∙ same ∙ ap (λ k. w (f k)) e
  | no ne ↦ ap w (if_neg (ℕ_discrete i j) ne a (f j))
]

-- The sum of the first `n` values.
unfoldable pub sum_below : ℕ → (ℕ → ℕ) → ℕ
sum_below zero f = 0
sum_below (suc n) f = sum_below n f + f n

pub sum_below-zero : (f : ℕ → ℕ) → sum_below 0 f ≡ 0
unfolding sum_below
sum_below-zero f = refl

pub sum_below-suc : (n : ℕ) (f : ℕ → ℕ) → sum_below (suc n) f ≡ sum_below n f + f n
unfolding sum_below
sum_below-suc n f = refl

pub sum_below-congr :
    (n : ℕ) (f g : ℕ → ℕ) → ((i : ℕ) → i < n → f i ≡ g i) → sum_below n f ≡ sum_below n g
unfolding sum_below
sum_below-congr zero f g h = refl
sum_below-congr (suc n) f g h =
    omega (arith, sum_below-congr n f g (λ i lt. h i (omega arith)), h n (omega arith))

pub sum_below-le :
    (n : ℕ) (f g : ℕ → ℕ) → ((i : ℕ) → i < n → f i ≤ g i) → sum_below n f ≤ sum_below n g
unfolding sum_below
sum_below-le zero f g h = omega arith
sum_below-le (suc n) f g h =
    omega (arith, sum_below-le n f g (λ i lt. h i (omega arith)), h n (omega arith))

pub sum_below_strict :
    (n i : ℕ) (f g : ℕ → ℕ)
    → i < n
    → ((j : ℕ) → j < n → f j ≤ g j)
    → f i < g i
    → sum_below n f < sum_below n g
unfolding sum_below
sum_below_strict zero i f g below h lt = absurd (omega arith)
sum_below_strict (suc n) i f g below h lt = elim (ℕ_discrete i n) [
  | yes here ↦
      omega (arith, sum_below-le n f g (λ j p. h j (omega arith)), subst (λ k. f k < g k) here lt)
  | no there ↦ omega (
    arith,
    sum_below_strict n i f g (omega arith) (λ j p. h j (omega arith)) lt,
    h n (omega arith),
  )
]

pub sum_below-const : (n c : ℕ) → sum_below n (λ _. c) ≡ n * c
unfolding sum_below
sum_below-const zero c = omega arith
sum_below-const (suc n) c = grind (arith, sum_below-const n c)

-- Two indices with values above zero.
pub sum_below_two :
    (n a b : ℕ) (f : ℕ → ℕ) → a < n → b < n → a ≢ b → 0 < f a → 0 < f b → 1 < sum_below n f
sum_below_two n a b f p q ne pos_a pos_b = omega (
  arith,
  sum_below-const n 0,
  sum_below_strict n b (λ _. 0) (update f a 0) q (λ j lt. omega arith) (ground arith),
  sum_below_strict n a (update f a 0) f p (λ j lt. ground arith) (ground arith),
)

-- Two families that differ at one index have sums that differ as the values there do.
sum_below-point :
    (n i : ℕ) (f g : ℕ → ℕ)
    → ((j : ℕ) → i ≢ j → g j ≡ f j)
    → (i < n → sum_below n g + f i ≡ sum_below n f + g i) × (n ≤ i → sum_below n g ≡ sum_below n f)
unfolding sum_below
sum_below-point zero i f g same = (λ h. absurd (omega arith), λ h. refl)
sum_below-point (suc k) i f g same =
    let (within, beyond) = sum_below-point k i f g same in
    (
      λ h. elim (ℕ_discrete i k) [
        | yes here ↦ rw here (omega (arith, beyond (omega arith)))
        | no there ↦ omega (arith, within (omega arith), same k there)
      ],
      λ h. omega (arith, beyond (omega arith), same k (omega arith)),
    )

-- The sum of a weight over the threads.
module _ {ℓ} {A : Type ℓ} (w : A → ℕ) where
  unfoldable pub total : ℕ → (ℕ → A) → ℕ
  total n f = sum_below n (λ i. w (f i))

  pub total-update :
      (n : ℕ) (f : ℕ → A) (at : ℕ) (value : A)
      → at < n
      → w value + total n f ≡ w (f at) + total n (update f at value)
  unfolding total
  total-update n f at value below =
      omega (arith, point.0 below, ap w (if_pos (ℕ_discrete at at) refl value (f at)))
    where
      point :
          (at < n
            → sum_below n (λ j. w (update f at value j)) + w (f at)
              ≡ sum_below n (λ j. w (f j)) + w (update f at value at))
          × (n ≤ at → sum_below n (λ j. w (update f at value j)) ≡ sum_below n (λ j. w (f j)))
      point =
          sum_below-point n at (λ j. w (f j)) (λ j. w (update f at value j))
            (λ j ne. ap w (if_neg (ℕ_discrete at j) ne value (f j)))

  -- A weight of at most 1 counts no more than the threads.
  pub total-count : ((a : A) → w a ≤ 1) → (n : ℕ) (f : ℕ → A) → total n f ≤ n
  unfolding total
  total-count unit n f =
      omega
        (arith, sum_below-le n (λ i. w (f i)) (λ _. 1) (λ i lt. unit (f i)), sum_below-const n 1)

  pub total-const :
      (n : ℕ) (f : ℕ → A) (k : ℕ) → ((i : ℕ) → i < n → w (f i) ≡ k) → total n f ≡ n * k
  unfolding total
  total-const n f k h = sum_below-congr n (λ i. w (f i)) (λ _. k) h ∙ sum_below-const n k

  pub each-zero : (n : ℕ) (f : ℕ → A) → total n f ≡ 0 → (i : ℕ) → i < n → w (f i) ≡ 0
  unfolding total sum_below
  each-zero zero f h i lt = absurd (omega arith)
  each-zero (suc n) f h i lt = elim (dec_lt i n) [
    | yes below ↦ each-zero n f (omega arith) i below
    | no last ↦ let e : i ≡ n = omega arith in rw e (omega arith)
  ]

  -- Nothing is left, or some index has a value above zero.
  pub find_pos : (n : ℕ) (f : ℕ → A) → (total n f ≡ 0) ⊎ ((i : ℕ) × (i < n) × (0 < w (f i)))
  unfolding total sum_below
  find_pos zero f = inl refl
  find_pos (suc n) f = elim (find_pos n f) [
    | inl none_below ↦ elim (dec_lt 0 (w (f n))) [
      | yes pos ↦ inr (n, omega arith, pos)
      | no z ↦ inl (omega arith)
    ]
    | inr (i, lt, pos) ↦ inr (i, omega arith, pos)
  ]

  pub total-le-sum :
      (n : ℕ) (f : ℕ → A) (g : ℕ → ℕ)
      → ((i : ℕ) → i < n → w (f i) ≤ g i)
      → total n f ≤ sum_below n g
  unfolding total
  total-le-sum n f g h = sum_below-le n (λ i. w (f i)) g h
