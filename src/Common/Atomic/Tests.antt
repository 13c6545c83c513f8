-- ===== src/Common/Atomic/Tests.antt =====
-- Numbers at work.
use shm_sync.Prelude.{
  ℕ, ◌+◌, ◌-◌, ◌≡◌, ◌&&◌, Bool, true, false, if◌then◌else◌, [], ◌∷◌, ◌++◌, refl, arith,
}
use shm_sync.Common.Atomic.Fences.{
  ll_ls_ss, Accesses, store_store, store_load, load_store, load_load, X86, sfence, lfence, mfence,
  Arm, dmb_ishst, dmb_ishld, dmb_ish, kept_by, mem_fence_x86_64, mem_fence_aarch64, mem_fence_kept,
  requests,
}
use shm_sync.Common.Atomic.Tagged.{get_ptr, set_ptr, get_count, create_tagged_ptr, tagged_ptr_parts}
use shm_sync.Common.Atomic.Gcc.{
  Machine, within, acq, rel, memory_order, gcc_atomic_load, gcc_atomic_store,
}
use shm_sync.Common.Atomic.Gcc.Sizes.{is_width, meaning}
use shm_sync.Common.Atomic.Gcc.Copies.{store_then_load}

abbrev x86_orders : X86 → Accesses → Bool
x86_orders mfence k = true
x86_orders sfence store_store = true
x86_orders lfence load_load = true
x86_orders lfence load_store = true
x86_orders _ _ = false

abbrev arm_orders : Arm → Accesses → Bool
arm_orders dmb_ish k = true
arm_orders dmb_ishst store_store = true
arm_orders dmb_ishld load_load = true
arm_orders dmb_ishld load_store = true
arm_orders _ _ = false

mem_fence_kept_example :
    (kept_by x86_orders (mem_fence_x86_64 ll_ls_ss) load_store ≡ true)
    × (kept_by arm_orders (mem_fence_aarch64 ll_ls_ss) load_store ≡ true)
mem_fence_kept_example =
    mem_fence_kept x86_orders arm_orders ll_ls_ss load_store
      (record { stores = refl; loads = refl; full = λ k. refl })
      (record { stores = refl; loads = refl; loads_stores = refl; full = λ k. refl }) refl

not_requested : requests ll_ls_ss store_load ≡ false
not_requested = refl

create_runs : create_tagged_ptr 0xabc 0x10003 ≡ 0x3_0000_0000_0abc
unfolding create_tagged_ptr
create_runs = refl

tagged_ptr_parts_example :
    (get_ptr (create_tagged_ptr 0xabc 0x10003) ≡ 0xabc)
    × (get_count (create_tagged_ptr 0xabc 0x10003) ≡ 3)
    × (create_tagged_ptr (get_ptr 0x5_0000_0000_0def) (get_count 0x5_0000_0000_0def)
        ≡ 0x5_0000_0000_0def)
    × (get_ptr (set_ptr 0x5_0000_0000_0def 0xabc) ≡ 0xabc)
    × (get_count (set_ptr 0x5_0000_0000_0def 0xabc) ≡ get_count 0x5_0000_0000_0def)
tagged_ptr_parts_example = tagged_ptr_parts 0xabc 0x10003 0x5_0000_0000_0def (omega arith)

abbrev counting : Machine
counting = record { bytes = λ a. a; orders = [] }

store_then_load_example :
    let m' =
      gcc_atomic_load 20 40
        (memory_order acq)
        4
        (gcc_atomic_store 20 60 (memory_order rel) 4 counting) in
    ((a : ℕ)
      → m'.bytes a ≡ (
          if is_width 4 && within 40 4 a
          then 60 + (a - 40)
          else if is_width 4 && within 20 4 a
          then 60 + (a - 20)
          else a))
    × (m'.orders ≡ (if is_width 4 then [] ++ (meaning rel ∷ meaning acq ∷ []) else []))
store_then_load_example = store_then_load 20 60 40 rel acq 4 counting
