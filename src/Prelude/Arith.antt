-- ===== src/Prelude/Arith.antt =====
-- Products and remainders by an unknown number.
use Prim.Native.Nat.{ℕ, zero, suc, ◌+◌, ◌-◌, ◌*◌, ◌/◌, ◌%◌, ◌≤◌, ◌<◌}
use mathlib.Core.Path.{◌≡◌, ap}
use native.Mathlib.Nat.{mod-add-mod, div-add-mod}
use native.Mathlib.Decide.{dec_lt}
use native.Mathlib.Omega.{arith}

pub pred_mul : (r k : ℕ) → 0 < r → r * k ≡ (r - 1) * k + k
pred_mul zero k h = absurd (omega arith)
pred_mul (suc r) k h = grind arith

mul_gap : (n a b : ℕ) → a < b → n * a + n ≤ n * b
mul_gap n a b h = grind arith

-- Two numbers of one window of `n` numbers are equal if their remainders by `n` are.
pub mod-window : (n a x y : ℕ) → a ≤ x → x < a + n → a ≤ y → y < a + n → x % n ≡ y % n → x ≡ y
mod-window n a x y p q r s e = elim (dec_lt (x / n) (y / n)) [
  | yes lt ↦ absurd (omega (arith, div-add-mod x n, div-add-mod y n, mul_gap n (x / n) (y / n) lt))
  | no ge ↦ elim (dec_lt (y / n) (x / n)) [
    | yes lt ↦
        absurd (omega (arith, div-add-mod x n, div-add-mod y n, mul_gap n (y / n) (x / n) lt))
    | no ge' ↦
        let q' : x / n ≡ y / n = omega arith in
        omega (arith, div-add-mod x n, div-add-mod y n, ap (λ (k : ℕ). n * k) q')
  ]
]

-- The successor of a remainder: `((k % n) + 1) % n` is `(k + 1) % n`.
pub suc-mod : (k n : ℕ) → (k % n + 1) % n ≡ (k + 1) % n
suc-mod k n = mod-add-mod k n 1
