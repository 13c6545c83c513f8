-- ===== src/Common/Atomic/Gcc.antt =====
-- common/atomic_intrinsic/ada/gcc_atomics.c: GCC's atomic operations on objects of 1, 2, 4 or 8
-- bytes. USE_DWATOMIC, which adds 16, is not set.
pub mod Sizes
pub mod Copies
mod Exchange
use shm_sync.Prelude.{
  ℕ, zero, suc, ◌+◌, ◌-◌, ◌==◌, ltb, leb, Bool, true, false, not, ◌&&◌, ◌||◌, if◌then◌else◌, List,
  [], ◌∷◌, ◌++◌, get_or,
}

-- `__ATOMIC_RELAXED` and so on; `invalid` is -1, and `unchecked` a number passed on as it is.
pub data Memorder : Type 0 where
  relaxed : Memorder
  consume : Memorder
  acquire : Memorder
  release : Memorder
  acq_rel : Memorder
  seq_cst : Memorder
  invalid : Memorder
  unchecked : ℕ → Memorder

pub gcc_memorder : ℕ → Memorder
gcc_memorder mo = get_or (relaxed ∷ consume ∷ acquire ∷ release ∷ acq_rel ∷ seq_cst ∷ []) mo invalid

-- `MemOrder_Type` of atomic_intrinsic.ads, and its position, which the Ada callers pass on.
pub data MemOrder : Type 0 where
  rlx con acq rel ar sc : MemOrder

pub memory_order : MemOrder → ℕ
memory_order rlx = 0
memory_order con = 1
memory_order acq = 2
memory_order rel = 3
memory_order ar = 4
memory_order sc = 5

-- The memory by bytes, and the orders of the operations so far.
pub record Machine : Type 0 where
  pub bytes : ℕ → ℕ
  pub orders : List Memorder

abbrev pub within : ℕ → ℕ → ℕ → Bool
within start width a = leb start a && ltb a (start + width)

-- `width` bytes from `src` stored at `dst` in one step.
abbrev pub copy_bytes : ℕ → ℕ → ℕ → (ℕ → ℕ) → ℕ → ℕ
copy_bytes width dst src bytes =
    λ a. if within dst width a then bytes (src + (a - dst)) else bytes a

pub equal_bytes : ℕ → ℕ → ℕ → (ℕ → ℕ) → Bool
equal_bytes zero p q bytes = true
equal_bytes (suc width) p q bytes = bytes p == bytes q && equal_bytes width (suc p) (suc q) bytes

-- The builtins `__atomic_load` and `__atomic_store` for an object of the given width.
abbrev pub atomic_load : ℕ → ℕ → ℕ → Memorder → Machine → Machine
atomic_load width ptr ret order m = record {
  bytes = copy_bytes width ret ptr m.bytes;
  orders = m.orders ++ (order ∷ []);
}

abbrev pub atomic_store : ℕ → ℕ → ℕ → Memorder → Machine → Machine
atomic_store width ptr val order m = record {
  bytes = copy_bytes width ptr val m.bytes;
  orders = m.orders ++ (order ∷ []);
}

-- `__atomic_compare_exchange_N`. A weak one may fail although the bytes are equal: `spurious`.
abbrev pub atomic_compare_exchange :
    Bool → ℕ → ℕ → ℕ → ℕ → Bool → Memorder → Memorder → Machine → Bool × Machine
atomic_compare_exchange spurious width ptr expected desired weak succ fail m =
    if equal_bytes width ptr expected m.bytes && not (weak && spurious)
    then (
      true,
      record { bytes = copy_bytes width ptr desired m.bytes; orders = m.orders ++ (succ ∷ []) },
    )
    else (
      false,
      record { bytes = copy_bytes width expected ptr m.bytes; orders = m.orders ++ (fail ∷ []) },
    )

-- Each case of the `switch` on the size casts to the type of that size.
pub gcc_atomic_load : (ptr ret memorder size : ℕ) → Machine → Machine
gcc_atomic_load ptr ret memorder size m =
    if size == 1
    then atomic_load 1 ptr ret (gcc_memorder memorder) m
    else if size == 2
    then atomic_load 2 ptr ret (gcc_memorder memorder) m
    else if size == 4
    then atomic_load 4 ptr ret (gcc_memorder memorder) m
    else if size == 8
    then atomic_load 8 ptr ret (gcc_memorder memorder) m
    else m

pub gcc_atomic_store : (ptr val memorder size : ℕ) → Machine → Machine
gcc_atomic_store ptr val memorder size m =
    if size == 1
    then atomic_store 1 ptr val (gcc_memorder memorder) m
    else if size == 2
    then atomic_store 2 ptr val (gcc_memorder memorder) m
    else if size == 4
    then atomic_store 4 ptr val (gcc_memorder memorder) m
    else if size == 8
    then atomic_store 8 ptr val (gcc_memorder memorder) m
    else m

-- `succ` and `fail` do not go through `gcc_memorder`.
pub gcc_atomic_compare_exchange :
    Bool → (ptr expected desired size : ℕ) (weak : Bool) (succ fail : ℕ) → Machine → Bool × Machine
gcc_atomic_compare_exchange spurious ptr expected desired size weak succ fail m =
    let s = unchecked succ in
    let f = unchecked fail in
    if size == 1
    then atomic_compare_exchange spurious 1 ptr expected desired weak s f m
    else if size == 2
    then atomic_compare_exchange spurious 2 ptr expected desired weak s f m
    else if size == 4
    then atomic_compare_exchange spurious 4 ptr expected desired weak s f m
    else if size == 8
    then atomic_compare_exchange spurious 8 ptr expected desired weak s f m
    else (false, m)
