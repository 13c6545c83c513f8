-- ===== src/Common/Atomic/Gcc/Sizes.antt =====
-- common/atomic_intrinsic/ada/gcc_atomics.c: the cases of the `switch` statements on the size, and what
-- the numbers of memory orders mean.
use shm_sync.Prelude.{
  ℕ, ◌≡◌, ◌==◌, Bool, false, ◌||◌, List, ==→eq, if◌then◌else◌, [], ◌∷◌, refl, Bool-cases, inl, inr,
}
use shm_sync.Common.Atomic.Gcc.{
  Machine, gcc_memorder, atomic_load, atomic_store, atomic_compare_exchange, Memorder, relaxed,
  consume, acquire, release, acq_rel, seq_cst, unchecked, MemOrder, rlx, con, acq, rel, ar, sc,
  memory_order, gcc_atomic_load, gcc_atomic_store, gcc_atomic_compare_exchange,
}

member : ℕ → List ℕ → Bool
member x [] = false
member x (y ∷ ys) = x == y || member x ys

-- The sizes of the integer types of C that an object may have.
pub is_width : ℕ → Bool
is_width size = member size (1 ∷ 2 ∷ 4 ∷ 8 ∷ [])

-- The order of GCC that an order of the Ada type means.
pub meaning : MemOrder → Memorder
meaning rlx = relaxed
meaning con = consume
meaning acq = acquire
meaning rel = release
meaning ar = acq_rel
meaning sc = seq_cst

pub gcc_memorder-memory_order : (o : MemOrder) → gcc_memorder (memory_order o) ≡ meaning o
unfolding gcc_memorder memory_order meaning
gcc_memorder-memory_order rlx = refl
gcc_memorder-memory_order con = refl
gcc_memorder-memory_order acq = refl
gcc_memorder-memory_order rel = refl
gcc_memorder-memory_order ar = refl
gcc_memorder-memory_order sc = refl

-- The size is one of the widths, or no case of a `switch` is taken.
data Size (size : ℕ) : Type 0 where
  one : size ≡ 1 → Size size
  two : size ≡ 2 → Size size
  four : size ≡ 4 → Size size
  eight : size ≡ 8 → Size size
  other :
      (size == 1) ≡ false
      → (size == 2) ≡ false
      → (size == 4) ≡ false
      → (size == 8) ≡ false
      → Size size

size_cases : (size : ℕ) → Size size
size_cases size = elim (Bool-cases (size == 1)) [
  | inl e ↦ one (==→eq _ _ e)
  | inr a ↦ elim (Bool-cases (size == 2)) [
    | inl e ↦ two (==→eq _ _ e)
    | inr b ↦ elim (Bool-cases (size == 4)) [
      | inl e ↦ four (==→eq _ _ e)
      | inr c ↦ elim (Bool-cases (size == 8)) [
        | inl e ↦ eight (==→eq _ _ e)
        | inr d ↦ other a b c d
      ]
    ]
  ]
]

pub load_cases :
    (ptr ret memorder size : ℕ) (m : Machine)
    → gcc_atomic_load ptr ret memorder size m
      ≡ (if is_width size then atomic_load size ptr ret (gcc_memorder memorder) m else m)
unfolding gcc_atomic_load is_width member
load_cases ptr ret mo size m = elim (size_cases size) [
  | one e ↦ rw e refl
  | two e ↦ rw e refl
  | four e ↦ rw e refl
  | eight e ↦ rw e refl
  | other a b c d ↦ rw (a, b, c, d) refl
]

pub store_cases :
    (ptr val memorder size : ℕ) (m : Machine)
    → gcc_atomic_store ptr val memorder size m
      ≡ (if is_width size then atomic_store size ptr val (gcc_memorder memorder) m else m)
unfolding gcc_atomic_store is_width member
store_cases ptr val mo size m = elim (size_cases size) [
  | one e ↦ rw e refl
  | two e ↦ rw e refl
  | four e ↦ rw e refl
  | eight e ↦ rw e refl
  | other a b c d ↦ rw (a, b, c, d) refl
]

pub exchange_cases :
    (spurious : Bool) (ptr expected desired size : ℕ) (weak : Bool) (succ fail : ℕ) (m : Machine)
    → gcc_atomic_compare_exchange spurious ptr expected desired size weak succ fail m ≡ (
        if is_width size
        then atomic_compare_exchange spurious size ptr expected desired weak
            (unchecked succ)
            (unchecked fail)
            m
        else (false, m))
unfolding gcc_atomic_compare_exchange is_width member
exchange_cases spurious ptr expected desired size weak succ fail m = elim (size_cases size) [
  | one e ↦ rw e refl
  | two e ↦ rw e refl
  | four e ↦ rw e refl
  | eight e ↦ rw e refl
  | other a b c d ↦ rw (a, b, c, d) refl
]
