-- ===== src/Prelude/Lists.antt =====
-- Lists measured and indexed by native numbers, under the library's names.
use Prim.Native.Nat.{ℕ, zero, suc, ◌+◌, ◌≤◌, ◌<◌}
use mathlib.Core.Path.{◌≡◌, refl, sym, ap, ap₂, ◌∙◌}
use mathlib.Core.Logic.{◌≢◌, ite, if_pos, if_neg}
use native.Mathlib.Decide.{ℕ_discrete}
use mathlib.Core.List.{List, [], ◌∷◌, ◌++◌}
use native.Mathlib.Omega.{arith}

module _ {ℓ} {A : Type ℓ} where
  abbrev pub length : List A → ℕ
  length [] = 0
  length (x ∷ xs) = suc (length xs)

  abbrev pub get_or : List A → ℕ → A → A
  get_or [] i d = d
  get_or (x ∷ xs) zero d = x
  get_or (x ∷ xs) (suc i) d = get_or xs i d

  -- A write out of bounds changes nothing.
  abbrev pub set : List A → ℕ → A → List A
  set [] i v = []
  set (x ∷ xs) zero v = v ∷ xs
  set (x ∷ xs) (suc i) v = x ∷ set xs i v

  abbrev pub replicate : ℕ → A → List A
  replicate zero v = []
  replicate (suc n) v = v ∷ replicate n v

  pub length-set : (xs : List A) (i : ℕ) (v : A) → length (set xs i v) ≡ length xs
  length-set [] i v = refl
  length-set (x ∷ xs) zero v = refl
  length-set (x ∷ xs) (suc i) v = ap suc (length-set xs i v)

  pub length-replicate : (n : ℕ) (v : A) → length (replicate n v) ≡ n
  length-replicate zero v = refl
  length-replicate (suc n) v = ap suc (length-replicate n v)

  pub get_or-set_self :
      (xs : List A) (i : ℕ) (v d : A) → i < length xs → get_or (set xs i v) i d ≡ v
  get_or-set_self [] i v d h = absurd (omega arith)
  get_or-set_self (x ∷ xs) zero v d h = refl
  get_or-set_self (x ∷ xs) (suc i) v d h = get_or-set_self xs i v d (omega arith)

  pub get_or-set_ne :
      (xs : List A) (i j : ℕ) (v d : A) → i ≢ j → get_or (set xs i v) j d ≡ get_or xs j d
  get_or-set_ne [] i j v d h = refl
  get_or-set_ne (x ∷ xs) zero zero v d h = absurd (h refl)
  get_or-set_ne (x ∷ xs) zero (suc j) v d h = refl
  get_or-set_ne (x ∷ xs) (suc i) zero v d h = refl
  get_or-set_ne (x ∷ xs) (suc i) (suc j) v d h = get_or-set_ne xs i j v d (λ e. h (ap suc e))

  pub length-append : (xs ys : List A) → length (xs ++ ys) ≡ length xs + length ys
  length-append [] ys = omega arith
  length-append (x ∷ xs) ys = omega (arith, length-append xs ys)

module _ {ℓ} {A : Type ℓ} where
  abbrev pub take : ℕ → List A → List A
  take zero xs = []
  take (suc n) [] = []
  take (suc n) (x ∷ xs) = x ∷ take n xs

  abbrev pub drop : ℕ → List A → List A
  drop zero xs = xs
  drop (suc n) [] = []
  drop (suc n) (x ∷ xs) = drop n xs

  -- `f i`, `f (i + 1)` and so on, `n` values.
  abbrev pub tabulate : ℕ → ℕ → (ℕ → A) → List A
  tabulate i zero f = []
  tabulate i (suc n) f = f i ∷ tabulate (suc i) n f

  pub tabulate-congr :
      (i n : ℕ) (f g : ℕ → A)
      → ((k : ℕ) → i ≤ k → k < i + n → f k ≡ g k)
      → tabulate i n f ≡ tabulate i n g
  tabulate-congr i zero f g h = refl
  tabulate-congr i (suc n) f g h =
      ap₂ ◌∷◌ (h i (omega arith) (omega arith))
        (tabulate-congr (suc i) n f g (λ k p q. h k (omega arith) (omega arith)))

  pub get_or-drop : (xs : List A) (j k : ℕ) (d : A) → get_or (drop j xs) k d ≡ get_or xs (j + k) d
  get_or-drop xs zero k d = ap (λ i. get_or xs i d) (omega arith)
  get_or-drop [] (suc j) k d = refl
  get_or-drop (x ∷ xs) (suc j) k d =
      get_or-drop xs j k d ∙ ap (λ i. get_or (x ∷ xs) i d) {x = suc (j + k)} (omega arith)

  pub length-tabulate : (i n : ℕ) (f : ℕ → A) → length (tabulate i n f) ≡ n
  length-tabulate i zero f = refl
  length-tabulate i (suc n) f = ap suc (length-tabulate (suc i) n f)

  tabulate-shift : (i n : ℕ) (f : ℕ → A) → tabulate (suc i) n f ≡ tabulate i n (λ k. f (suc k))
  tabulate-shift i zero f = refl
  tabulate-shift i (suc n) f = ap (λ t. f (suc i) ∷ t) (tabulate-shift (suc i) n f)

  pub take-eq-tabulate :
      (n : ℕ) (xs : List A) (d : A) → n ≤ length xs → take n xs ≡ tabulate 0 n (λ k. get_or xs k d)
  take-eq-tabulate zero xs d h = refl
  take-eq-tabulate (suc n) [] d h = absurd (omega arith)
  take-eq-tabulate (suc n) (x ∷ xs) d h =
      ap (λ t. x ∷ t) (take-eq-tabulate n xs d (omega arith))
      ∙ ap (λ t. x ∷ t) (sym (tabulate-shift 0 n (λ k. get_or (x ∷ xs) k d)))

-- A read behind a write in range.
pub get_or-set {ℓ} :
    {A : Type ℓ} (xs : List A) (i k : ℕ) (v d : A)
    → i < length xs
    → get_or (set xs i v) k d ≡ ite (ℕ_discrete i k) v (get_or xs k d)
get_or-set xs i k v d h = elim (ℕ_discrete i k) [
  | yes e ↦ rw (if_pos (ℕ_discrete i k) e v (get_or xs k d)) (rw (← e) (get_or-set_self xs i v d h))
  | no ne ↦ rw (if_neg (ℕ_discrete i k) ne v (get_or xs k d)) (get_or-set_ne xs i k v d ne)
]
