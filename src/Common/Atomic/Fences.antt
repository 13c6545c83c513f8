-- ===== src/Common/Atomic/Fences.antt =====
-- common/atomic_intrinsic/c++: `mem_fence` of fences_x86_64.h and fences_aarch64.h, for the requests
-- of fences.h. What an instruction orders is a parameter.
use Prim.Native.Nat.{bit_and, bit_or}
use shm_sync.Prelude.{ℕ, ◌≡◌, ◌==◌, Bool, true, false, not, ◌||◌, List, [], ◌∷◌, arith}

abbrev bit_ss : ℕ
bit_ss = 0x01

abbrev bit_sl : ℕ
bit_sl = 0x02

abbrev bit_ls : ℕ
bit_ls = 0x04

abbrev bit_ll : ℕ
bit_ll = 0x08

-- `enum class fences`.
pub data Fences : Type 0 where
  ss : Fences
  sl : Fences
  ls : Fences
  ll : Fences
  sl_ss : Fences
  ls_ss : Fences
  ls_sl : Fences
  ls_sl_ss : Fences
  ll_ss : Fences
  ll_sl : Fences
  ll_sl_ss : Fences
  ll_ls : Fences
  ll_ls_ss : Fences
  ll_ls_sl : Fences
  ll_ls_sl_ss : Fences

-- The value of an enumerator.
abbrev pub value_of : Fences → ℕ
value_of ss = bit_ss
value_of sl = bit_sl
value_of ls = bit_ls
value_of ll = bit_ll
value_of sl_ss = bit_or bit_sl bit_ss
value_of ls_ss = bit_or bit_ls bit_ss
value_of ls_sl = bit_or bit_ls bit_sl
value_of ls_sl_ss = bit_or (bit_or bit_ls bit_sl) bit_ss
value_of ll_ss = bit_or bit_ll bit_ss
value_of ll_sl = bit_or bit_ll bit_sl
value_of ll_sl_ss = bit_or (bit_or bit_ll bit_sl) bit_ss
value_of ll_ls = bit_or bit_ll bit_ls
value_of ll_ls_ss = bit_or (bit_or bit_ll bit_ls) bit_ss
value_of ll_ls_sl = bit_or (bit_or bit_ll bit_ls) bit_sl
value_of ll_ls_sl_ss = bit_or (bit_or (bit_or bit_ll bit_ls) bit_sl) bit_ss

-- The two accesses that a fence keeps in order: the one before it and the one behind.
pub data Accesses : Type 0 where
  store_store : Accesses
  store_load : Accesses
  load_store : Accesses
  load_load : Accesses

abbrev pub bit_of : Accesses → ℕ
bit_of store_store = bit_ss
bit_of store_load = bit_sl
bit_of load_store = bit_ls
bit_of load_load = bit_ll

-- The enumerator contains the bit of the two accesses.
abbrev pub requests : Fences → Accesses → Bool
requests f k = not (bit_and (value_of f) (bit_of k) == 0)

pub data X86 : Type 0 where
  sfence : X86
  lfence : X86
  mfence : X86

pub data Arm : Type 0 where
  dmb_ishst : Arm
  dmb_ishld : Arm
  dmb_ish : Arm

pub mem_fence_x86_64 : Fences → List X86
mem_fence_x86_64 ss = sfence ∷ []
mem_fence_x86_64 ll = lfence ∷ []
mem_fence_x86_64 ll_ss = lfence ∷ sfence ∷ []
mem_fence_x86_64 _ = mfence ∷ []

pub mem_fence_aarch64 : Fences → List Arm
mem_fence_aarch64 ss = dmb_ishst ∷ []
mem_fence_aarch64 ll = dmb_ishld ∷ []
mem_fence_aarch64 ll_ss = dmb_ishld ∷ dmb_ishst ∷ []
mem_fence_aarch64 ls = dmb_ishld ∷ []
mem_fence_aarch64 ll_ls = dmb_ishld ∷ []
mem_fence_aarch64 ll_ls_ss = dmb_ishld ∷ dmb_ishst ∷ []
mem_fence_aarch64 _ = dmb_ish ∷ []

-- What the manuals of the processors say of each instruction.
pub record X86Orders (orders : X86 → Accesses → Bool) : Type 0 where
  pub stores : orders sfence store_store ≡ true
  pub loads : orders lfence load_load ≡ true
  pub full : (k : Accesses) → orders mfence k ≡ true

pub record ArmOrders (orders : Arm → Accesses → Bool) : Type 0 where
  pub stores : orders dmb_ishst store_store ≡ true
  pub loads : orders dmb_ishld load_load ≡ true
  pub loads_stores : orders dmb_ishld load_store ≡ true
  pub full : (k : Accesses) → orders dmb_ish k ≡ true

-- Some instruction of the list orders the two accesses.
abbrev pub kept_by {ℓ} : {I : Type ℓ} → (I → Accesses → Bool) → List I → Accesses → Bool
kept_by orders [] k = false
kept_by orders (i ∷ is) k = orders i k || kept_by orders is k

module _ (orders : X86 → Accesses → Bool) (manual : X86Orders orders) where
  x86_kept :
      (f : Fences) (k : Accesses)
      → requests f k ≡ true
      → kept_by orders (mem_fence_x86_64 f) k ≡ true
  unfolding mem_fence_x86_64
  x86_kept ss store_store h = ground (arith, manual.stores, manual.loads)
  x86_kept ss store_load h = ground (arith, manual.stores, manual.loads)
  x86_kept ss load_store h = ground (arith, manual.stores, manual.loads)
  x86_kept ss load_load h = ground (arith, manual.stores, manual.loads)
  x86_kept sl k h = ground (arith, manual.full k)
  x86_kept ls k h = ground (arith, manual.full k)
  x86_kept ll store_store h = ground (arith, manual.stores, manual.loads)
  x86_kept ll store_load h = ground (arith, manual.stores, manual.loads)
  x86_kept ll load_store h = ground (arith, manual.stores, manual.loads)
  x86_kept ll load_load h = ground (arith, manual.stores, manual.loads)
  x86_kept sl_ss k h = ground (arith, manual.full k)
  x86_kept ls_ss k h = ground (arith, manual.full k)
  x86_kept ls_sl k h = ground (arith, manual.full k)
  x86_kept ls_sl_ss k h = ground (arith, manual.full k)
  x86_kept ll_ss store_store h = ground (arith, manual.stores, manual.loads)
  x86_kept ll_ss store_load h = ground (arith, manual.stores, manual.loads)
  x86_kept ll_ss load_store h = ground (arith, manual.stores, manual.loads)
  x86_kept ll_ss load_load h = ground (arith, manual.stores, manual.loads)
  x86_kept ll_sl k h = ground (arith, manual.full k)
  x86_kept ll_sl_ss k h = ground (arith, manual.full k)
  x86_kept ll_ls k h = ground (arith, manual.full k)
  x86_kept ll_ls_ss k h = ground (arith, manual.full k)
  x86_kept ll_ls_sl k h = ground (arith, manual.full k)
  x86_kept ll_ls_sl_ss k h = ground (arith, manual.full k)

module _ (orders : Arm → Accesses → Bool) (manual : ArmOrders orders) where
  arm_kept :
      (f : Fences) (k : Accesses)
      → requests f k ≡ true
      → kept_by orders (mem_fence_aarch64 f) k ≡ true
  unfolding mem_fence_aarch64
  arm_kept ss store_store h = ground (arith, manual.stores, manual.loads, manual.loads_stores)
  arm_kept ss store_load h = ground (arith, manual.stores, manual.loads, manual.loads_stores)
  arm_kept ss load_store h = ground (arith, manual.stores, manual.loads, manual.loads_stores)
  arm_kept ss load_load h = ground (arith, manual.stores, manual.loads, manual.loads_stores)
  arm_kept sl k h = ground (arith, manual.full k)
  arm_kept ls store_store h = ground (arith, manual.stores, manual.loads, manual.loads_stores)
  arm_kept ls store_load h = ground (arith, manual.stores, manual.loads, manual.loads_stores)
  arm_kept ls load_store h = ground (arith, manual.stores, manual.loads, manual.loads_stores)
  arm_kept ls load_load h = ground (arith, manual.stores, manual.loads, manual.loads_stores)
  arm_kept ll store_store h = ground (arith, manual.stores, manual.loads, manual.loads_stores)
  arm_kept ll store_load h = ground (arith, manual.stores, manual.loads, manual.loads_stores)
  arm_kept ll load_store h = ground (arith, manual.stores, manual.loads, manual.loads_stores)
  arm_kept ll load_load h = ground (arith, manual.stores, manual.loads, manual.loads_stores)
  arm_kept sl_ss k h = ground (arith, manual.full k)
  arm_kept ls_ss k h = ground (arith, manual.full k)
  arm_kept ls_sl k h = ground (arith, manual.full k)
  arm_kept ls_sl_ss k h = ground (arith, manual.full k)
  arm_kept ll_ss store_store h = ground (arith, manual.stores, manual.loads, manual.loads_stores)
  arm_kept ll_ss store_load h = ground (arith, manual.stores, manual.loads, manual.loads_stores)
  arm_kept ll_ss load_store h = ground (arith, manual.stores, manual.loads, manual.loads_stores)
  arm_kept ll_ss load_load h = ground (arith, manual.stores, manual.loads, manual.loads_stores)
  arm_kept ll_sl k h = ground (arith, manual.full k)
  arm_kept ll_sl_ss k h = ground (arith, manual.full k)
  arm_kept ll_ls store_store h = ground (arith, manual.stores, manual.loads, manual.loads_stores)
  arm_kept ll_ls store_load h = ground (arith, manual.stores, manual.loads, manual.loads_stores)
  arm_kept ll_ls load_store h = ground (arith, manual.stores, manual.loads, manual.loads_stores)
  arm_kept ll_ls load_load h = ground (arith, manual.stores, manual.loads, manual.loads_stores)
  arm_kept ll_ls_ss store_store h = ground (arith, manual.stores, manual.loads, manual.loads_stores)
  arm_kept ll_ls_ss store_load h = ground (arith, manual.stores, manual.loads, manual.loads_stores)
  arm_kept ll_ls_ss load_store h = ground (arith, manual.stores, manual.loads, manual.loads_stores)
  arm_kept ll_ls_ss load_load h = ground (arith, manual.stores, manual.loads, manual.loads_stores)
  arm_kept ll_ls_sl k h = ground (arith, manual.full k)
  arm_kept ll_ls_sl_ss k h = ground (arith, manual.full k)

-- On both processors every pair of accesses that a request names is kept in order by one of the
-- instructions, if these order what the manuals say.
pub mem_fence_kept :
    (x86 : X86 → Accesses → Bool) (arm : Arm → Accesses → Bool) (f : Fences) (k : Accesses)
    → X86Orders x86
    → ArmOrders arm
    → requests f k ≡ true
    → (kept_by x86 (mem_fence_x86_64 f) k ≡ true) × (kept_by arm (mem_fence_aarch64 f) k ≡ true)
mem_fence_kept x86 arm f k hx ha h = (x86_kept x86 hx f k h, arm_kept arm ha f k h)
