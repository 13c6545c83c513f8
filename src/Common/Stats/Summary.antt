-- ===== src/Common/Stats/Summary.antt =====
-- common/stats/stats.cpp: the summary of a list of samples (`doStats`), and the median that
-- `aggregateStatistics` takes of the longest times.
pub mod Bounds
pub mod Median
use shm_sync.Prelude.{
  ℕ, zero, suc, ◌+◌, ◌-◌, ◌/◌, ◌%◌, ◌^◌, ◌==◌, leb, if◌then◌else◌, List, [], ◌∷◌, map, get_or,
  length,
}

-- The operations on `double` that the statistics use. `difference x m` is the integer `x - m` as a
-- double, `quotient a b` is `1.0 * a / b`, `truncate` the conversion to `long long`, and
-- `from_long` that from it, for the number that 64 bits stand for.
pub record Floats : Type 1 where
  pub Double : Type 0
  pub zero_double : Double
  pub from_long : ℕ → Double
  pub difference : ℕ → ℕ → Double
  pub plus : Double → Double → Double
  pub times : Double → Double → Double
  pub over : Double → ℕ → Double
  pub sqrt : Double → Double
  pub truncate : Double → ℕ
  pub quotient : ℕ → ℕ → Double

-- `result_t`. Samples are durations, so they are natural numbers.
pub record Result (D : Type 0) : Type 0 where
  pub max : ℕ
  pub mean : ℕ
  pub stdev : ℕ
  pub cv : D
  pub median : ℕ

-- `std::accumulate`.
abbrev pub accumulate {ℓ} : {A B : Type ℓ} → (B → A → B) → B → List A → B
accumulate f acc [] = acc
accumulate f acc (x ∷ xs) = accumulate f (f acc x) xs

-- `*std::max_element`, with the largest value so far.
abbrev pub larger : ℕ → ℕ → ℕ
larger m x = if leb x m then m else x

-- `none` of the list's elements is larger.
abbrev pub max_element : List ℕ → ℕ
max_element [] = 0
max_element (x ∷ xs) = accumulate larger x xs

module _ (F : Floats) where
  open F use {Double, zero_double, difference, plus, times, over, sqrt, truncate, quotient}

  abbrev pub square_sum : List Double → Double
  square_sum diff = accumulate (λ acc d. plus acc (times d d)) zero_double diff

  -- `doStats` over the samples `nsec`; `r` is the result record as it was.
  unfoldable pub do_stats : List ℕ → Result Double → Result Double
  do_stats nsec r =
      let mean = (accumulate (λ acc x. acc + x) 0 nsec % 2 ^ 64) / length nsec in
      let stdev =
        truncate (sqrt (over (square_sum (map (λ x. difference x mean) nsec)) (length nsec))) in
      record r { mean = mean; stdev = stdev; cv = quotient stdev mean; max = max_element nsec }

-- `std::sort`.
pub insert_sorted : ℕ → List ℕ → List ℕ
insert_sorted x [] = x ∷ []
insert_sorted x (y ∷ ys) = if leb x y then x ∷ y ∷ ys else y ∷ insert_sorted x ys

pub sort : List ℕ → List ℕ
sort [] = []
sort (x ∷ xs) = insert_sorted x (sort xs)

-- The median of the executions' longest times. The sum of the two middle ones has 64 bits, and goes
-- through a double, which is halved.
unfoldable pub median_of : (F : Floats) → List ℕ → ℕ
unfolding sort insert_sorted
median_of F all_max =
    let sorted = sort all_max in
    let n = length all_max in
    if n % 2 == 0
    then (let temp =
          F.from_long ((get_or sorted (n / 2 - 1) 0 + get_or sorted (n / 2) 0) % 2 ^ 64) in
        F.truncate (F.over temp 2))
    else get_or sorted (n / 2) 0
