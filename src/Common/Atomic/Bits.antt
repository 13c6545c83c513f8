-- ===== src/Common/Atomic/Bits.antt =====
-- Masks of neighbouring ones, and the union of two numbers with no common digit.
use Prim.Native.Nat.{min, max, bit_and, bit_or, digits, bit_and-bitwise, bit_or-bitwise}
use native.Mathlib.Nat.{
  mod-lt, mod-eq_of_lt, div-add-mod, mul-add-mod_self_left, pow-succ', div-div-eq-div-mul,
}
use shm_sync.Prelude.{
  ℕ, zero, suc, ◌+◌, ◌*◌, ◌/◌, ◌%◌, ◌^◌, ◌≤◌, ◌<◌, ◌≡◌, refl, sym, ap, ◌∙◌, arith, ℕ_discrete,
}

-- An operation on digits, with the value `rest b` once the first number has run out.
module _ (rest : ℕ → ℕ) (op : ℕ → ℕ → ℕ) where
  extra : (n a b : ℕ) → a ≤ n → digits rest op (suc n) a b ≡ digits rest op n a b
  extra zero zero b h = refl
  extra zero (suc a) b h = absurd (omega arith)
  extra (suc n) zero b h = refl
  extra (suc n) (suc a) b h =
      ap (λ t. t * 2 + op (suc a % 2) (b % 2)) (extra n (suc a / 2) (b / 2) (omega arith))

  enough : (n a b : ℕ) → a ≤ n → digits rest op n a b ≡ digits rest op a a b
  enough zero a b h = let e : a ≡ 0 = omega arith in rw e refl
  enough (suc n) a b h = elim (ℕ_discrete a (suc n)) [
    | yes e ↦ rw e refl
    | no ne ↦ extra n a b (omega arith) ∙ enough n a b (omega arith)
  ]

  halved :
      (a b : ℕ)
      → digits rest op (suc a) (suc a) b
        ≡ digits rest op (suc a / 2) (suc a / 2) (b / 2) * 2 + op (suc a % 2) (b % 2)
  halved a b = ap (λ t. t * 2 + op (suc a % 2) (b % 2)) (enough a (suc a / 2) (b / 2) (omega arith))

and_zero : (b : ℕ) → bit_and 0 b ≡ 0
and_zero b = bit_and-bitwise 0 b

or_zero : (b : ℕ) → bit_or 0 b ≡ b
or_zero b = bit_or-bitwise 0 b

and_half : (a b : ℕ) → bit_and a b ≡ bit_and (a / 2) (b / 2) * 2 + min (a % 2) (b % 2)
and_half zero b = omega (arith, and_zero b, and_zero (b / 2))
and_half (suc a) b =
    omega (
      arith,
      bit_and-bitwise (suc a) b,
      halved (λ _. 0) min a b,
      bit_and-bitwise (suc a / 2) (b / 2),
    )

or_half : (a b : ℕ) → bit_or a b ≡ bit_or (a / 2) (b / 2) * 2 + max (a % 2) (b % 2)
or_half zero b = omega (arith, or_zero b, or_zero (b / 2))
or_half (suc a) b =
    omega
      (arith, bit_or-bitwise (suc a) b, halved (λ t. t) max a b, bit_or-bitwise (suc a / 2) (b / 2))

-- `2 ^ k - 1`.
abbrev pub ones : ℕ → ℕ
ones zero = 0
ones (suc k) = 2 * ones k + 1

-- `m` with `k` zeros behind it.
abbrev pub shifted : ℕ → ℕ → ℕ
shifted zero m = m
shifted (suc k) m = 2 * shifted k m

and_nothing : (n a : ℕ) → a ≤ n → bit_and a 0 ≡ 0
and_nothing zero a h = let e : a ≡ 0 = omega arith in rw e (and_zero 0)
and_nothing (suc n) a h = elim (ℕ_discrete a 0) [
  | yes e ↦ rw e (and_zero 0)
  | no ne ↦ omega (arith, and_half a 0, and_nothing n (a / 2) (omega arith))
]

mod-double : (a m : ℕ) → 0 < m → a % (2 * m) ≡ a / 2 % m * 2 + a % 2
mod-double a m h =
    let r : ℕ = a / 2 % m * 2 + a % 2 in
    let small : r < 2 * m = omega (arith, mod-lt (a / 2) h) in
    let whole : a ≡ 2 * m * (a / 2 / m) + r = grind (arith, div-add-mod (a / 2) m) in
    ap (λ (t : ℕ). t % (2 * m)) whole
    ∙ mul-add-mod_self_left (2 * m) (a / 2 / m) r
    ∙ mod-eq_of_lt small

pow_pos : (k : ℕ) → 0 < 2 ^ k
pow_pos zero = omega arith
pow_pos (suc k) = omega (arith, pow_pos k)

-- The lowest `k` digits.
pub bit_and-ones : (k a : ℕ) → bit_and a (ones k) ≡ a % 2 ^ k
bit_and-ones zero a = omega (arith, and_nothing a a (omega arith))
bit_and-ones (suc k) a =
    let half : ones (suc k) / 2 ≡ ones k = omega arith in
    omega (
      arith,
      and_half a (ones (suc k)),
      ap (bit_and (a / 2)) half,
      bit_and-ones k (a / 2),
      mod-double a (2 ^ k) (pow_pos k),
      ap (λ (t : ℕ). a % t) (pow-succ' 2 k),
    )

-- The digits above the lowest `k`, in a mask shifted by `k`.
pub bit_and-shifted : (k a m : ℕ) → bit_and a (shifted k m) ≡ shifted k (bit_and (a / 2 ^ k) m)
bit_and-shifted zero a m = let e : a / 2 ^ 0 ≡ a = omega arith in ap (λ t. bit_and t m) (sym e)
bit_and-shifted (suc k) a m =
    let half : shifted (suc k) m / 2 ≡ shifted k m = omega arith in
    let rest : a / 2 / 2 ^ k ≡ a / 2 ^ suc k =
      div-div-eq-div-mul a 2 (2 ^ k) ∙ ap (λ (t : ℕ). a / t) (sym (pow-succ' 2 k)) in
    omega (
      arith,
      and_half a (shifted (suc k) m),
      ap (bit_and (a / 2)) half,
      bit_and-shifted k (a / 2) m,
      ap (λ t. shifted k (bit_and t m)) rest,
    )

pub shifted-eq-mul : (k m : ℕ) → shifted k m ≡ 2 ^ k * m
shifted-eq-mul zero m = omega arith
shifted-eq-mul (suc k) m = grind (arith, shifted-eq-mul k m, ap (λ (t : ℕ). t * m) (pow-succ' 2 k))

or_nothing : (n a : ℕ) → a ≤ n → bit_or a 0 ≡ a
or_nothing zero a h = let e : a ≡ 0 = omega arith in rw e (or_zero 0)
or_nothing (suc n) a h = elim (ℕ_discrete a 0) [
  | yes e ↦ rw e (or_zero 0)
  | no ne ↦ omega (arith, or_half a 0, or_nothing n (a / 2) (omega arith))
]

-- Without a common digit the union is the sum.
pub bit_or-disjoint :
    (k m b : ℕ)
    → b < 2 ^ k
    → (bit_or (shifted k m) b ≡ shifted k m + b) × (bit_or b (shifted k m) ≡ b + shifted k m)
bit_or-disjoint zero m b h =
    let e : b ≡ 0 = omega arith in
    rw e (or_nothing m m (omega arith) ∙ omega arith, or_zero m ∙ omega arith)
bit_or-disjoint (suc k) m b h =
    let half : shifted (suc k) m / 2 ≡ shifted k m = omega arith in
    let (left, right) = bit_or-disjoint k m (b / 2) (omega (arith, pow-succ' 2 k)) in
    (
      omega (arith, or_half (shifted (suc k) m) b, ap (λ t. bit_or t (b / 2)) half, left),
      omega (arith, or_half b (shifted (suc k) m), ap (bit_or (b / 2)) half, right),
    )
