-- ===== src/Common/Atomic/Gcc/Copies.antt =====
-- common/atomic_intrinsic/ada/gcc_atomics.c: values that pass through an atomic object.
use shm_sync.Prelude.{
  ℕ, ◌+◌, ◌-◌, ◌≡◌, true, ◌&&◌, if◌then◌else◌, [], ◌∷◌, ◌++◌, refl, arith, Bool-cases, inl, inr,
}
use mathlib.Core.List.{append_assoc}
use shm_sync.Common.Atomic.Gcc.{
  Machine, gcc_memorder, within, copy_bytes, atomic_store, MemOrder, memory_order, gcc_atomic_load,
  gcc_atomic_store,
}
use shm_sync.Common.Atomic.Gcc.Sizes.{
  is_width, meaning, gcc_memorder-memory_order, load_cases, store_cases,
}

copy-copy :
    (size ptr val ret : ℕ) (b : ℕ → ℕ) (a : ℕ)
    → copy_bytes size ret ptr (copy_bytes size ptr val b) a ≡ (
        if within ret size a
        then b (val + (a - ret))
        else if within ptr size a
        then b (val + (a - ptr))
        else b a)
copy-copy size ptr val ret b a = elim (Bool-cases (within ret size a)) [
  | inr e ↦ rw e refl
  | inl e ↦
      let inside : within ptr size (ptr + (a - ret)) ≡ true = ground arith in
      let offset : ptr + (a - ret) - ptr ≡ a - ret = omega arith in rw (e, inside, offset) refl
]

-- A value stored from `val` into the object at `ptr` and loaded from there to `ret` arrives as it was,
-- for a size of 1, 2, 4 or 8 bytes, whatever the places overlap. The bytes of the object are then those
-- of `val`, all others are as before, and each operation uses GCC's order of the meaning of the Ada
-- order whose position it gets. For any other size nothing happens.
pub store_then_load :
    (ptr val ret : ℕ) (store_order load_order : MemOrder) (size : ℕ) (m : Machine)
    → let m' =
        gcc_atomic_load ptr ret
          (memory_order load_order)
          size
          (gcc_atomic_store ptr val (memory_order store_order) size m) in
      ((a : ℕ)
        → m'.bytes a ≡ (
            if is_width size && within ret size a
            then m.bytes (val + (a - ret))
            else if is_width size && within ptr size a
            then m.bytes (val + (a - ptr))
            else m.bytes a))
      × (m'.orders ≡ (
          if is_width size
          then m.orders ++ (meaning store_order ∷ meaning load_order ∷ [])
          else m.orders))
store_then_load ptr val ret so lo size m = elim (Bool-cases (is_width size)) [
  | inr e ↦
      rw
        (
          store_cases ptr val (memory_order so) size m,
          e,
          load_cases ptr ret (memory_order lo) size m,
          e,
        )
        ((λ a. refl), refl)
  | inl e ↦
      let stored = atomic_store size ptr val (gcc_memorder (memory_order so)) m in
      let orders = append_assoc m.orders (meaning so ∷ []) (meaning lo ∷ []) in
      rw
        (
          store_cases ptr val (memory_order so) size m,
          e,
          load_cases ptr ret (memory_order lo) size stored,
          e,
          gcc_memorder-memory_order so,
          gcc_memorder-memory_order lo,
        )
        ((λ a. copy-copy size ptr val ret m.bytes a), orders)
]
