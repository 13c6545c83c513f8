-- ===== src/Common/Atomic/Tagged.antt =====
-- common/tagged_pointers/tagged.c: a pointer of 48 bits and a counter of 16 bits in one `uint64_t`.
use Prim.Native.Nat.{bit_and, bit_or}
use shm_sync.Prelude.{ℕ, ◌+◌, ◌*◌, ◌/◌, ◌%◌, ◌^◌, ◌<◌, ◌≡◌, ap, ◌∙◌, arith}
use shm_sync.Common.Atomic.Bits.{
  ones, bit_and-ones, bit_and-shifted, shifted-eq-mul, bit_or-disjoint,
}

abbrev pub mask_ptr : ℕ
mask_ptr = 0xffffffffffff

-- `(uint64_t)0xffffu << 48`.
abbrev pub mask_cnt : ℕ
mask_cnt = 0xffff * 2 ^ 48

pub get_ptr : ℕ → ℕ
get_ptr tagged_ptr = bit_and tagged_ptr mask_ptr

-- The value that `set_ptr` stores back.
pub set_ptr : ℕ → ℕ → ℕ
set_ptr tagged_ptr ptr = bit_or (bit_and tagged_ptr mask_cnt) (bit_and ptr mask_ptr)

pub get_count : ℕ → ℕ
get_count tagged_ptr = tagged_ptr / 2 ^ 48

unfoldable pub create_tagged_ptr : ℕ → ℕ → ℕ
create_tagged_ptr ptr count = bit_or (bit_and ptr mask_ptr) (count * 2 ^ 48 % 2 ^ 64)

low : (a : ℕ) → bit_and a mask_ptr ≡ a % 2 ^ 48
low a = bit_and-ones 48 a

high : (a : ℕ) → bit_and a mask_cnt ≡ 2 ^ 48 * (a / 2 ^ 48 % 2 ^ 16)
high a =
    bit_and-shifted 48 a (ones 16)
    ∙ shifted-eq-mul 48 (bit_and (a / 2 ^ 48) (ones 16))
    ∙ ap (λ (t : ℕ). 2 ^ 48 * t) (bit_and-ones 16 (a / 2 ^ 48))

-- The two parts side by side, in either order.
beside :
    (p c : ℕ)
    → p < 2 ^ 48
    → (bit_or (2 ^ 48 * c) p ≡ 2 ^ 48 * c + p) × (bit_or p (2 ^ 48 * c) ≡ p + 2 ^ 48 * c)
beside p c h = rw (shifted-eq-mul 48 c) at (bit_or-disjoint 48 c p h)

get_ptr-mod : (t : ℕ) → get_ptr t ≡ t % 2 ^ 48
unfolding get_ptr
get_ptr-mod t = low t

create_tagged_ptr-sum : (p c : ℕ) → create_tagged_ptr p c ≡ p % 2 ^ 48 + 2 ^ 48 * (c % 2 ^ 16)
unfolding create_tagged_ptr
create_tagged_ptr-sum p c =
    let e : c * 2 ^ 48 % 2 ^ 64 ≡ 2 ^ 48 * (c % 2 ^ 16) = omega arith in
    rw (e, low p) (beside (p % 2 ^ 48) (c % 2 ^ 16) (omega arith)).1

set_ptr-sum : (t p : ℕ) → set_ptr t p ≡ 2 ^ 48 * (t / 2 ^ 48 % 2 ^ 16) + p % 2 ^ 48
unfolding set_ptr
set_ptr-sum t p = rw (high t, low p) (beside (p % 2 ^ 48) (t / 2 ^ 48 % 2 ^ 16) (omega arith)).0

-- A tagged pointer gives back the lower 48 bits of its pointer and the lower 16 bits of its counter;
-- it is made of what it gives back; and `set_ptr` replaces the pointer and leaves the counter.
pub tagged_ptr_parts :
    (ptr count tagged : ℕ)
    → tagged < 2 ^ 64
    → (get_ptr (create_tagged_ptr ptr count) ≡ ptr % 2 ^ 48)
      × (get_count (create_tagged_ptr ptr count) ≡ count % 2 ^ 16)
      × (create_tagged_ptr (get_ptr tagged) (get_count tagged) ≡ tagged)
      × (get_ptr (set_ptr tagged ptr) ≡ ptr % 2 ^ 48)
      × (get_count (set_ptr tagged ptr) ≡ get_count tagged)
unfolding get_count
tagged_ptr_parts ptr count tagged h = (
  omega (arith, get_ptr-mod (create_tagged_ptr ptr count), create_tagged_ptr-sum ptr count),
  omega (arith, create_tagged_ptr-sum ptr count),
  omega (arith, create_tagged_ptr-sum (get_ptr tagged) (tagged / 2 ^ 48), get_ptr-mod tagged),
  omega (arith, get_ptr-mod (set_ptr tagged ptr), set_ptr-sum tagged ptr),
  omega (arith, set_ptr-sum tagged ptr),
)
