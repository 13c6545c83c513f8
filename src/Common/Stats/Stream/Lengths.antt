-- ===== src/Common/Stats/Stream/Lengths.antt =====
-- `std::ostream` as common/stats/stats.cpp uses it: how long the texts are.
use native.Mathlib.Nat.{pow-succ'}
use shm_sync.Prelude.{
  ℕ, zero, suc, ◌+◌, ◌-◌, ◌/◌, ◌%◌, ◌^◌, ◌≤◌, ◌<◌, ◌≡◌, ltb, Bool, true, false, List, [], ◌∷◌, ◌++◌,
  length, length-append, length-replicate, replicate, refl, sym, ap, arith, Bool-cases, inl, inr,
  lt→ltb, ltb→ge,
}
use mathlib.Core.List.{append_assoc}
use shm_sync.Common.Stats.Stream.{Item, Format, decimal_from, decimal, padded, step, emit}

-- A text that fits takes up the width.
pub length-padded :
    (is_left : Bool) (w : ℕ) (t : List ℕ) → length t ≤ w → length (padded is_left w t) ≡ w
length-padded true w t h = omega (
  arith,
  length-append t (replicate (w - length t) b' '),
  length-replicate {A = ℕ} (w - length t) b' ',
)
length-padded false w t h = omega (
  arith,
  length-append (replicate (w - length t) b' ') t,
  length-replicate {A = ℕ} (w - length t) b' ',
)

-- Without a width the text stays as it is.
pub length-unpadded :
    (is_left : Bool) (w : ℕ) (t : List ℕ) → w ≡ 0 → length (padded is_left w t) ≡ length t
length-unpadded true w t h = omega (
  arith,
  length-append t (replicate (w - length t) b' '),
  length-replicate {A = ℕ} (w - length t) b' ',
)
length-unpadded false w t h = omega (
  arith,
  length-append (replicate (w - length t) b' ') t,
  length-replicate {A = ℕ} (w - length t) b' ',
)

length-decimal_from :
    (fuel n w : ℕ) → n < 10 ^ w → 0 < w → n ≤ fuel → length (decimal_from fuel n) ≤ w
unfolding decimal_from
length-decimal_from zero n w h p le = omega arith
length-decimal_from (suc fuel) n zero h p le = absurd (omega arith)
length-decimal_from (suc fuel) n (suc zero) h p le =
    let small : ltb n 10 ≡ true = lt→ltb n 10 (omega arith) in rw small (omega arith)
length-decimal_from (suc fuel) n (suc (suc w)) h p le = elim (Bool-cases (ltb n 10)) [
  | inl e ↦ rw e (omega arith)
  | inr e ↦ rw e (
      omega (
        arith,
        length-append (decimal_from fuel (n / 10)) ((b'0' + n % 10) ∷ []),
        length-decimal_from fuel (n / 10) (suc w) (omega (arith, pow-succ' 10 (suc w)))
            (omega arith) (omega (arith, ltb→ge n 10 e)),
      ))
]

-- A number below `10 ^ w` has at most `w` digits.
pub length-decimal : (n w : ℕ) → n < 10 ^ w → 0 < w → length (decimal n) ≤ w
length-decimal n w h p = length-decimal_from n n w h p (omega arith)

module _ {D : Type 0} (show : Bool → ℕ → D → List ℕ) where
  -- One item after the other.
  pub emit-append :
      (xs ys : List (Item D)) (f : Format)
      → emit show (xs ++ ys) f ≡ (
        (emit show xs f).0 ++ (emit show ys (emit show xs f).1).0,
        (emit show ys (emit show xs f).1).1,
      )
  unfolding emit
  emit-append [] ys f = refl
  emit-append (x ∷ xs) ys f =
      let e = emit-append xs ys (step show x f).1 in
      rw e (
        ap (λ t. (t, (emit show ys (emit show (x ∷ xs) f).1).1))
          (sym (append_assoc (step show x f).0 (emit show xs (step show x f).1).0 _)))

  pub length-emit_append :
      (xs ys : List (Item D)) (f : Format)
      → length (emit show (xs ++ ys) f).0
        ≡ length (emit show xs f).0 + length (emit show ys (emit show xs f).1).0
  length-emit_append xs ys f = rw (emit-append xs ys f) (length-append (emit show xs f).0 _)
