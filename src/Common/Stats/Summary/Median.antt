-- ===== src/Common/Stats/Summary/Median.antt =====
-- The median that `aggregateStatistics` takes.
use shm_sync.Prelude.{
  ℕ, zero, suc, ◌+◌, ◌-◌, ◌*◌, ◌/◌, ◌%◌, ◌^◌, ◌≤◌, ◌<◌, ◌≡◌, ◌≢◌, ==→eq, ◌==◌, Bool, List, [], ◌∷◌,
  length, get_or, leb, if◌then◌else◌, refl, arith, ◌∙◌, ap, Bool-cases, inl, inr,
}
use native.Mathlib.Nat.{le_refl}
use shm_sync.Common.Stats.Summary.{Floats, insert_sorted, sort, median_of}
use shm_sync.Common.Stats.Summary.Bounds.{AllLe}

-- How many elements pass the test.
pub count : (ℕ → Bool) → List ℕ → ℕ
count p [] = 0
count p (x ∷ xs) = (if p x then 1 else 0) + count p xs

abbrev AllGe : ℕ → List ℕ → Type 0
AllGe m [] = Unit
AllGe m (x ∷ xs) = (m ≤ x) × AllGe m xs

abbrev Sorted : List ℕ → Type 0
Sorted [] = Unit
Sorted (x ∷ xs) = AllGe x xs × Sorted xs

AllGe-mono : (m k : ℕ) (xs : List ℕ) → k ≤ m → AllGe m xs → AllGe k xs
AllGe-mono m k [] h a = tt
AllGe-mono m k (x ∷ xs) h a = (omega arith, AllGe-mono m k xs h a.1)

AllGe-insert_sorted : (m x : ℕ) (ys : List ℕ) → m ≤ x → AllGe m ys → AllGe m (insert_sorted x ys)
unfolding insert_sorted
AllGe-insert_sorted m x [] h a = (h, tt)
AllGe-insert_sorted m x (y ∷ ys) h a = elim (Bool-cases (leb x y)) [
  | inl e ↦ rw e (h, a)
  | inr e ↦ rw e (a.0, AllGe-insert_sorted m x ys h a.1)
]

Sorted-insert_sorted : (x : ℕ) (ys : List ℕ) → Sorted ys → Sorted (insert_sorted x ys)
unfolding insert_sorted
Sorted-insert_sorted x [] s = (tt, tt)
Sorted-insert_sorted x (y ∷ ys) s = elim (Bool-cases (leb x y)) [
  | inl e ↦ rw e ((ground arith, AllGe-mono y x ys (ground arith) s.0), s)
  | inr e ↦ rw e (AllGe-insert_sorted y x ys (ground arith) s.0, Sorted-insert_sorted x ys s.1)
]

Sorted-sort : (xs : List ℕ) → Sorted (sort xs)
unfolding sort
Sorted-sort [] = tt
Sorted-sort (x ∷ xs) = Sorted-insert_sorted x (sort xs) (Sorted-sort xs)

count-insert_sorted :
    (p : ℕ → Bool) (x : ℕ) (ys : List ℕ) → count p (insert_sorted x ys) ≡ count p (x ∷ ys)
unfolding insert_sorted count
count-insert_sorted p x [] = refl
count-insert_sorted p x (y ∷ ys) = ground (arith, count-insert_sorted p x ys)

-- Sorting loses nothing and adds nothing.
pub count-sort : (p : ℕ → Bool) (xs : List ℕ) → count p (sort xs) ≡ count p xs
unfolding sort count
count-sort p [] = refl
count-sort p (x ∷ xs) =
    count-insert_sorted p x (sort xs) ∙ ap (λ k. (if p x then 1 else 0) + k) (count-sort p xs)

length-insert_sorted : (x : ℕ) (ys : List ℕ) → length (insert_sorted x ys) ≡ suc (length ys)
unfolding insert_sorted
length-insert_sorted x [] = refl
length-insert_sorted x (y ∷ ys) = ground (arith, length-insert_sorted x ys)

length-sort : (xs : List ℕ) → length (sort xs) ≡ length xs
unfolding sort
length-sort [] = refl
length-sort (x ∷ xs) = length-insert_sorted x (sort xs) ∙ ap suc (length-sort xs)

get_or-ge : (m : ℕ) (ys : List ℕ) (i : ℕ) → AllGe m ys → i < length ys → m ≤ get_or ys i 0
get_or-ge m [] i a h = absurd (omega arith)
get_or-ge m (y ∷ ys) zero a h = a.0
get_or-ge m (y ∷ ys) (suc i) a h = get_or-ge m ys i a.1 (omega arith)

-- In a sorted list the elements up to place `i` are not above the one at `i`.
count-le-get_or :
    (ys : List ℕ) (i m : ℕ)
    → Sorted ys
    → i < length ys
    → get_or ys i 0 ≤ m
    → i + 1 ≤ count (λ x. leb x m) ys
unfolding count
count-le-get_or [] i m s h le = absurd (omega arith)
count-le-get_or (y ∷ ys) zero m s h le = ground arith
count-le-get_or (y ∷ ys) (suc i) m s h le =
    ground (arith, count-le-get_or ys i m s.1 (omega arith) le, get_or-ge y ys i s.0 (omega arith))

count-ge-all : (ys : List ℕ) (m : ℕ) → AllGe m ys → length ys ≤ count (λ x. leb m x) ys
unfolding count
count-ge-all [] m a = omega arith
count-ge-all (y ∷ ys) m a = ground (arith, count-ge-all ys m a.1)

-- And those from place `i` on are not below it.
count-ge-get_or :
    (ys : List ℕ) (i m : ℕ)
    → Sorted ys
    → i < length ys
    → m ≤ get_or ys i 0
    → length ys ≤ count (λ x. leb m x) ys + i
unfolding count
count-ge-get_or [] i m s h le = absurd (omega arith)
count-ge-get_or (y ∷ ys) zero m s h le =
    omega (arith, count-ge-all (y ∷ ys) m (le, AllGe-mono y m ys le s.0))
count-ge-get_or (y ∷ ys) (suc i) m s h le =
    ground (arith, count-ge-get_or ys i m s.1 (omega arith) le)

Sorted-get_or :
    (ys : List ℕ) (i : ℕ) → Sorted ys → suc i < length ys → get_or ys i 0 ≤ get_or ys (suc i) 0
Sorted-get_or [] i s h = absurd (omega arith)
Sorted-get_or (y ∷ ys) zero s h = get_or-ge y ys 0 s.0 (omega arith)
Sorted-get_or (y ∷ ys) (suc i) s h = Sorted-get_or ys i s.1 (omega arith)

-- A value between the elements at two middle places of the sorted list splits the list in halves.
abbrev Halves : List ℕ → ℕ → Type 0
Halves xs m = (length xs ≤ 2 * count (λ t. leb t m) xs) × (length xs ≤ 2 * count (λ t. leb m t) xs)

between-Halves :
    (xs : List ℕ) (m lo hi : ℕ)
    → lo < length xs
    → hi < length xs
    → length xs ≤ 2 * (lo + 1)
    → 2 * hi ≤ length xs
    → get_or (sort xs) lo 0 ≤ m
    → m ≤ get_or (sort xs) hi 0
    → Halves xs m
between-Halves xs m lo hi hl hh low high a b = (
  omega (
    arith,
    count-sort (λ t. leb t m) xs,
    count-le-get_or (sort xs) lo m (Sorted-sort xs) (omega (arith, length-sort xs)) a,
  ),
  omega (
    arith,
    count-sort (λ t. leb m t) xs,
    length-sort xs,
    count-ge-get_or (sort xs) hi m (Sorted-sort xs) (omega (arith, length-sort xs)) b,
  ),
)

middle-le :
    (xs : List ℕ) (k : ℕ)
    → 0 < k
    → k < length xs
    → get_or (sort xs) (k - 1) 0 ≤ get_or (sort xs) k 0
middle-le xs zero h lt = absurd (omega arith)
middle-le xs (suc k) h lt =
    rw pred_suc (Sorted-get_or (sort xs) k (Sorted-sort xs) (omega (arith, length-sort xs)))
  where
    pred_suc : suc k - 1 ≡ k
    pred_suc = omega arith

-- What IEEE 754 says of doubles and their division by 2: numbers up to 2 ^ 53 are exact, and so are
-- their halves, of which the conversion back cuts off the fraction.
unfoldable pub IsExact : Floats → Type 0
IsExact F = (k : ℕ) → k ≤ 2 ^ 53 → F.truncate (F.over (F.from_long k) 2) ≡ k / 2

middle-AllLe : (bound : ℕ) (xs : List ℕ) (i : ℕ) → AllLe bound xs → get_or xs i 0 ≤ bound
middle-AllLe bound [] i a = omega arith
middle-AllLe bound (x ∷ xs) zero a = a.0
middle-AllLe bound (x ∷ xs) (suc i) a = middle-AllLe bound xs i a.1

AllLe-insert_sorted :
    (bound x : ℕ) (ys : List ℕ) → x ≤ bound → AllLe bound ys → AllLe bound (insert_sorted x ys)
unfolding insert_sorted
AllLe-insert_sorted bound x [] h a = (h, tt)
AllLe-insert_sorted bound x (y ∷ ys) h a = elim (Bool-cases (leb x y)) [
  | inl e ↦ rw e (h, a)
  | inr e ↦ rw e (a.0, AllLe-insert_sorted bound x ys h a.1)
]

AllLe-sort : (bound : ℕ) (xs : List ℕ) → AllLe bound xs → AllLe bound (sort xs)
unfolding sort
AllLe-sort bound [] a = tt
AllLe-sort bound (x ∷ xs) a = AllLe-insert_sorted bound x (sort xs) a.0 (AllLe-sort bound xs a.1)

-- If the times are at most 2 ^ 52, and doubles are exact up to 2 ^ 53: at least half of the times are
-- at most the median, and at least half are at least the median.
pub median_of_halves :
    (F : Floats)
    → IsExact F
    → (x : ℕ) (xs : List ℕ) → AllLe (2 ^ 52) (x ∷ xs)
    → let times = x ∷ xs in
      (length times ≤ 2 * count (λ t. leb t (median_of F times)) times)
      × (length times ≤ 2 * count (λ t. leb (median_of F times) t) times)
unfolding median_of IsExact
median_of_halves F exact x xs small =
    let n = length (x ∷ xs) in
    elim (Bool-cases (n % 2 == 0)) [
      | inl even ↦
          let parity : n % 2 ≡ 0 = ==→eq _ _ even in
          let order = middle-le (x ∷ xs) (n / 2) (omega arith) (omega arith) in
          let bounded = AllLe-sort (2 ^ 52) (x ∷ xs) small in
          let low = middle-AllLe (2 ^ 52) (sort (x ∷ xs)) (n / 2 - 1) bounded in
          let high = middle-AllLe (2 ^ 52) (sort (x ∷ xs)) (n / 2) bounded in
          let total = get_or (sort (x ∷ xs)) (n / 2 - 1) 0 + get_or (sort (x ∷ xs)) (n / 2) 0 in
          let no_wrap : total % 2 ^ 64 ≡ total = omega arith in
          rw (even, no_wrap, exact total (omega arith))
            (between-Halves (x ∷ xs) _ (n / 2 - 1) (n / 2) (omega arith) (omega arith) (omega arith)
              (omega arith) (omega arith) (omega arith))
      | inr odd ↦
          let parity : n % 2 ≢ 0 = λ e. ground arith in
          rw odd (
            between-Halves (x ∷ xs) _ (n / 2) (n / 2) (omega arith) (omega arith) (omega arith)
              (omega arith) (le_refl _) (le_refl _))
    ]
