-- ===== src/Common/Atomic/Gcc/Exchange.antt =====
-- common/atomic_intrinsic/ada/gcc_atomics.c: a compare and exchange that is made again.
use shm_sync.Prelude.{
  ℕ, zero, suc, ◌+◌, ◌-◌, ◌≤◌, ◌<◌, ◌≡◌, ◌⊎◌, ◌==◌, Bool, true, false, not, ◌&&◌, refl, sym, ap,
  ◌∙◌, arith, Bool-cases, inl, inr,
}
use shm_sync.Common.Atomic.Gcc.{
  Machine, within, copy_bytes, equal_bytes, atomic_compare_exchange, unchecked,
  gcc_atomic_compare_exchange,
}
use shm_sync.Common.Atomic.Gcc.Sizes.{is_width, exchange_cases}

equal_bytes-all :
    (width p q : ℕ) (b : ℕ → ℕ)
    → ((i : ℕ) → i < width → b (p + i) ≡ b (q + i))
    → equal_bytes width p q b ≡ true
unfolding equal_bytes
equal_bytes-all zero p q b h = refl
equal_bytes-all (suc width) p q b h =
    let here : b p ≡ b q =
      ap b {x = p} {y = p + 0} (omega arith)
      ∙ h 0 (omega arith)
      ∙ ap b {x = q + 0} {y = q} (omega arith) in
    let test : (b p == b q) ≡ true = ground arith in
    rw test (
      equal_bytes-all width (suc p) (suc q) b (λ i lt.
        ap b {x = suc p + i} {y = p + suc i} (omega arith)
        ∙ h (suc i) (omega arith)
        ∙ ap b {x = q + suc i} {y = suc q + i} (omega arith)))

-- Two places of the given width do not overlap.
abbrev pub Apart : ℕ → ℕ → ℕ → Type 0
Apart width p q = (p + width ≤ q) ⊎ (q + width ≤ p)

-- What a failed call has stored at `expected` makes the next call succeed.
module _ (size ptr expected desired : ℕ) (m : Machine) (apart : Apart size ptr expected)
    (aside : Apart size desired expected) where
  abbrev seen : ℕ → ℕ
  seen = copy_bytes size expected ptr m.bytes

  seen-equal : equal_bytes size ptr expected seen ≡ true
  seen-equal = equal_bytes-all size ptr expected seen (λ i lt. same i lt)
    where
      same : (i : ℕ) → i < size → seen (ptr + i) ≡ seen (expected + i)
      same i lt =
          let out : within expected size (ptr + i) ≡ false = ground arith in
          let at : within expected size (expected + i) ≡ true = ground arith in
          let offset : expected + i - expected ≡ i = omega arith in rw (out, at, offset) refl

  abbrev call : Bool → Bool → ℕ → ℕ → Machine → Bool × Machine
  call spurious weak succ fail =
      atomic_compare_exchange spurious size ptr expected desired weak (unchecked succ)
        (unchecked fail)

  failed :
      (spurious weak : Bool) (succ fail : ℕ)
      → (call spurious weak succ fail m).0 ≡ false
      → (call spurious weak succ fail m).1.bytes ≡ seen
  failed spurious weak succ fail h =
      elim (Bool-cases (equal_bytes size ptr expected m.bytes && not (weak && spurious))) [
        | inl e ↦ absurd (true_false (rw e at h))
        | inr e ↦ rw e refl
      ]
    where
      true_false : true ≡ false → ⊥
      true_false p = ground arith

  again :
      (spurious : Bool) (succ fail : ℕ) (m' : Machine)
      → m'.bytes ≡ seen
      → let r = call spurious false succ fail m' in
        (r.0 ≡ true) × (r.1.bytes ≡ copy_bytes size ptr desired seen)
  again spurious succ fail m' h =
      let equal : equal_bytes size ptr expected m'.bytes ≡ true =
        ap (equal_bytes size ptr expected) h ∙ seen-equal in
      rw equal (refl, ap (copy_bytes size ptr desired) h)

  stored : (i : ℕ) → i < size → copy_bytes size ptr desired seen (ptr + i) ≡ m.bytes (desired + i)
  stored i lt =
      let at : within ptr size (ptr + i) ≡ true = ground arith in
      let offset : ptr + i - ptr ≡ i = omega arith in
      let out : within expected size (desired + i) ≡ false = ground arith in
      rw (at, offset, out) refl

  -- `gcc_atomic_compare_exchange` for a size of 1, 2, 4 or 8 bytes, when `expected` overlaps neither
  -- the object nor `desired`: after a call that fails, a strong one succeeds and stores the bytes of
  -- `desired`. For any other size every call fails and nothing changes.
  pub compare_exchange_retry :
      (spurious weak : Bool) (succ fail : ℕ)
      → let call = gcc_atomic_compare_exchange spurious ptr expected desired size in
        let (done, m') = call weak succ fail m in
        let (done', m'') = call false succ fail m' in
        (is_width size ≡ true
          → done ≡ false
          → (done' ≡ true) × ((i : ℕ) → i < size → m''.bytes (ptr + i) ≡ m.bytes (desired + i)))
        × (is_width size ≡ false → (done' ≡ false) × (m'' ≡ m))
  compare_exchange_retry spurious weak succ fail = (λ s h. retry s h, λ s. none_done s)
    where
      wide :
          (w : Bool) (m' : Machine)
          → is_width size ≡ true
          → gcc_atomic_compare_exchange spurious ptr expected desired size w succ fail m'
            ≡ call spurious w succ fail m'
      wide w m' s = rw (exchange_cases spurious ptr expected desired size w succ fail m', s) refl

      no_case :
          (w : Bool) (m' : Machine)
          → is_width size ≡ false
          → gcc_atomic_compare_exchange spurious ptr expected desired size w succ fail m'
            ≡ (false, m')
      no_case w m' s = rw (exchange_cases spurious ptr expected desired size w succ fail m', s) refl

      retry :
          is_width size ≡ true
          → let r =
              gcc_atomic_compare_exchange spurious ptr expected desired size weak succ fail m in
            let r' =
              gcc_atomic_compare_exchange spurious ptr expected desired size false succ fail r.1 in
            r.0 ≡ false
            → (r'.0 ≡ true) × ((i : ℕ) → i < size → r'.1.bytes (ptr + i) ≡ m.bytes (desired + i))
      retry s h =
          let bytes =
            failed spurious weak succ fail
              (sym (ap (λ (r : Bool × Machine). r.0) (wide weak m s)) ∙ h) in
          let (won, kept) = again spurious succ fail (call spurious weak succ fail m).1 bytes in
          rw (wide weak m s, wide false (call spurious weak succ fail m).1 s)
            (won, λ i lt. ap (λ (b : ℕ → ℕ). b (ptr + i)) kept ∙ stored i lt)

      none_done :
          is_width size ≡ false
          → let r =
              gcc_atomic_compare_exchange spurious ptr expected desired size weak succ fail m in
            let r' =
              gcc_atomic_compare_exchange spurious ptr expected desired size false succ fail r.1 in
            (r'.0 ≡ false) × (r'.1 ≡ m)
      none_done s = rw (no_case weak m s, no_case false m s) (refl, refl)
