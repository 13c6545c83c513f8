-- ===== src/Driver/Lock/Shares.antt =====
-- The iterations that the threads of a run get.
use shm_sync.Prelude.{
  ℕ, zero, suc, ◌+◌, ◌*◌, ◌/◌, ◌%◌, ◌≤◌, ◌<◌, ◌≡◌, Bool, true, false, not, ◌||◌, ltb, leb,
  if◌then◌else◌, sum_below, sum_below-congr, arith, ap, ◌∙◌,
}
use shm_sync.Driver.Lock.{iter_per_thread}
use native.Mathlib.Nat.{div-add-mod, mod-lt}

-- The first `p` of `n` threads get `q` each, and the first `r` of these one more.
dealt :
    (n p q r : ℕ)
    → r ≤ p
    → sum_below n (λ t. if ltb t p then q + (if ltb t r then 1 else 0) else 0)
      ≡ (if ltb n p then n * q else p * q) + (if ltb n r then n else r)
unfolding sum_below
dealt zero p q r h = ground arith
dealt (suc n) p q r h = grind (arith, dealt n p q r h)

whole :
    (n p nr_iter : ℕ)
    → 0 < p
    → p ≤ n
    → sum_below n (λ t. if ltb t p then nr_iter / p + (if ltb t (nr_iter % p) then 1 else 0) else 0)
      ≡ nr_iter
whole n p nr_iter pos le =
    let small : nr_iter % p < p = mod-lt nr_iter pos in
    dealt n p (nr_iter / p) (nr_iter % p) (omega arith) ∙ last small
  where
    last :
        nr_iter % p < p
        → (if ltb n p then n * (nr_iter / p) else p * (nr_iter / p))
            + (if ltb n (nr_iter % p) then n else nr_iter % p)
          ≡ nr_iter
    last small = ground (arith, div-add-mod nr_iter p)

-- The iterations of the threads that take part in a run are `nr_iter` in total.
pub shares_total :
    (n nr_iter run : ℕ) (sc_runs : Bool)
    → run < n
    → sum_below n (λ t.
      if not sc_runs || leb t run
      then iter_per_thread nr_iter (if sc_runs then run + 1 else n) t
      else 0)
      ≡ nr_iter
unfolding iter_per_thread
shares_total n nr_iter run true h =
    sum_below-congr n _
      (λ t.
        if ltb t (run + 1)
        then nr_iter / (run + 1) + (if ltb t (nr_iter % (run + 1)) then 1 else 0)
        else 0)
      (λ t lt. ground arith)
    ∙ whole n (run + 1) nr_iter (omega arith) (omega arith)
shares_total n nr_iter run false h =
    sum_below-congr n _
      (λ t. if ltb t n then nr_iter / n + (if ltb t (nr_iter % n) then 1 else 0) else 0)
      (λ t lt. ground arith)
    ∙ whole n n nr_iter (omega arith) (omega arith)

-- If the remainder is dealt by numbers from `n` on, nobody gets a part of it.
pub shares_short :
    (n nr_iter run : ℕ) (sc_runs : Bool)
    → run < n
    → sum_below n (λ t.
      if not sc_runs || leb t run
      then iter_per_thread nr_iter (if sc_runs then run + 1 else n) (t + n)
      else 0)
        + nr_iter % (if sc_runs then run + 1 else n)
      ≡ nr_iter
unfolding iter_per_thread
shares_short n nr_iter run sc_runs h =
    let p : ℕ = if sc_runs then run + 1 else n in
    let (pos, le) = bounds sc_runs in
    let small : nr_iter % p < p = mod-lt nr_iter pos in
    ap (λ k. k + nr_iter % p)
      (sum_below-congr n _ (λ t. if ltb t p then nr_iter / p + (if ltb t 0 then 1 else 0) else 0)
          (λ t lt. none_extra sc_runs t lt small)
        ∙ dealt n p (nr_iter / p) 0 (omega arith))
    ∙ all_of p le
  where
    bounds : (sc : Bool) → (0 < (if sc then run + 1 else n)) × ((if sc then run + 1 else n) ≤ n)
    bounds true = (omega arith, omega arith)
    bounds false = (omega arith, omega arith)

    none_extra :
        (sc : Bool) (t : ℕ)
        → t < n
        → nr_iter % (if sc then run + 1 else n) < (if sc then run + 1 else n)
        → (if not sc || leb t run
            then nr_iter / (if sc then run + 1 else n)
              + (if ltb (t + n) (nr_iter % (if sc then run + 1 else n)) then 1 else 0)
            else 0)
          ≡ (if ltb t (if sc then run + 1 else n)
              then nr_iter / (if sc then run + 1 else n) + (if ltb t 0 then 1 else 0)
              else 0)
    none_extra true t lt small = ground arith
    none_extra false t lt small = ground arith

    all_of :
        (p : ℕ)
        → p ≤ n
        → (if ltb n p then n * (nr_iter / p) else p * (nr_iter / p))
            + (if ltb n 0 then n else 0)
            + nr_iter % p
          ≡ nr_iter
    all_of p le = ground (arith, div-add-mod nr_iter p)
