-- ===== src/Base/Bits.antt =====
-- Casts to the fixed widths, shifts, single flag bits, and `|` of disjoint fields as a sum.
use Prim.Native.Nat.{
  ℕ, zero, suc, ◌+◌, ◌-◌, ◌*◌, ◌/◌, ◌%◌, ◌^◌, ◌≤◌, ◌<◌, max, bit_or, digits, bit_or-bitwise,
}
use mathlib.Core.Path.{◌≡◌, refl, ap}
use mathlib.Core.Bool.{Bool}
use native.Mathlib.Nat.{pow-suc}
use native.Mathlib.Omega.{arith}
use nyan_real_vdd.Base.Tests.{◌==◌, if◌then◌else◌}

abbrev pub u8 : ℕ → ℕ
u8 n = n % 2 ^ 8

abbrev pub u32 : ℕ → ℕ
u32 n = n % 2 ^ 32

abbrev pub u64 : ℕ → ℕ
u64 n = n % 2 ^ 64

-- x >> k and x << k (the latter before its cast)
abbrev pub shr : ℕ → ℕ → ℕ
shr x k = x / 2 ^ k

abbrev pub shl : ℕ → ℕ → ℕ
shl x k = x * 2 ^ k

-- x & (2^k - 1)
abbrev pub low_bits : ℕ → ℕ → ℕ
low_bits x k = x % 2 ^ k

-- (x & (1 << k)) != 0
abbrev pub has_bit : ℕ → ℕ → Bool
has_bit x k = shr x k % 2 == 1

-- x | (1 << k)
abbrev pub set_bit : ℕ → ℕ → ℕ
set_bit x k = if has_bit x k then x else x + 2 ^ k

-- x & ~(1 << k)
abbrev pub clear_bit : ℕ → ℕ → ℕ
clear_bit x k = if has_bit x k then x - 2 ^ k else x

or_digits : ℕ → ℕ → ℕ → ℕ
or_digits n a b = digits (λ y. y) max n a b

or_digits_fuel : (n m a b : ℕ) → a ≤ n → a ≤ m → or_digits n a b ≡ or_digits m a b
unfolding or_digits
or_digits_fuel zero zero a b p q = refl
or_digits_fuel zero (suc m) zero b p q = refl
or_digits_fuel zero (suc m) (suc a) b p q = absurd (omega arith)
or_digits_fuel (suc n) zero zero b p q = refl
or_digits_fuel (suc n) zero (suc a) b p q = absurd (omega arith)
or_digits_fuel (suc n) (suc m) zero b p q = refl
or_digits_fuel (suc n) (suc m) (suc a) b p q =
    rw (or_digits_fuel n m (suc a / 2) (b / 2) (omega arith) (omega arith))

-- The lowest digit of `|`.
bit_or_step : (a b : ℕ) → bit_or a b ≡ bit_or (a / 2) (b / 2) * 2 + max (a % 2) (b % 2)
unfolding or_digits
bit_or_step zero b = simp bit_or-bitwise (omega arith)
bit_or_step (suc a) b = omega (
  arith,
  bit_or-bitwise (suc a) b,
  bit_or-bitwise (suc a / 2) (b / 2),
  or_digits_fuel a (suc a / 2) (suc a / 2) (b / 2) (omega arith) (omega arith),
)

bit_or-zero_fuel : (n a : ℕ) → a ≤ n → bit_or a 0 ≡ a
bit_or-zero_fuel n zero h = refl
bit_or-zero_fuel zero (suc a) h = absurd (omega arith)
bit_or-zero_fuel (suc n) (suc a) h =
    omega (arith, bit_or_step (suc a) 0, bit_or-zero_fuel n (suc a / 2) (omega arith))

pub bit_or-zero : (a : ℕ) → bit_or a 0 ≡ a
bit_or-zero a = bit_or-zero_fuel a a (omega arith)

-- `(q << k) | r` is the sum when `r` fits `k` bits.
pub bit_or_disjoint : (k q r : ℕ) → r < 2 ^ k → bit_or (q * 2 ^ k) r ≡ q * 2 ^ k + r
bit_or_disjoint zero q r h = ground (arith, bit_or-zero q)
bit_or_disjoint (suc k) q r h = ground (
  arith,
  bit_or_step (q * 2 ^ suc k) r,
  ap (λ (t : ℕ). q * t) (pow-suc 2 k),
  bit_or_disjoint k q (r / 2) (omega (arith, pow-suc 2 k)),
)

bit_or-zero_left : (b : ℕ) → bit_or 0 b ≡ b
bit_or-zero_left b = simp bit_or-bitwise

-- The same with the operands swapped, as `r | (q << k)`.
pub bit_or_disjoint_comm : (k q r : ℕ) → r < 2 ^ k → bit_or r (q * 2 ^ k) ≡ q * 2 ^ k + r
bit_or_disjoint_comm zero q r h =
    let e : r ≡ 0 = omega arith in rw e (omega (arith, bit_or-zero_left (q * 1)))
bit_or_disjoint_comm (suc k) q r h = ground (
  arith,
  bit_or_step r (q * 2 ^ suc k),
  ap (λ (t : ℕ). q * t) (pow-suc 2 k),
  bit_or_disjoint_comm k q (r / 2) (omega (arith, pow-suc 2 k)),
)

-- Four bytes of a little-endian word, joined as the source joins them.
abbrev pub word_of : ℕ → ℕ → ℕ → ℕ → ℕ
word_of a b c d = bit_or (bit_or (bit_or a (shl b 8)) (shl c 16)) (shl d 24)

pub word_of_sum :
    (a b c d : ℕ)
    → a < 256
    → b < 256
    → c < 256
    → d < 256
    → word_of a b c d ≡ a + b * 2 ^ 8 + c * 2 ^ 16 + d * 2 ^ 24
word_of_sum a b c d ha hb hc hd = rw (bit_or_disjoint_comm 8 b a (omega arith)) (
    rw (bit_or_disjoint_comm 16 c (b * 2 ^ 8 + a) (omega arith))
      (rw (bit_or_disjoint_comm 24 d (c * 2 ^ 16 + (b * 2 ^ 8 + a)) (omega arith)) (omega arith)))

-- The bytes of a word, lowest first.
abbrev pub byte_of : ℕ → ℕ → ℕ
byte_of x k = low_bits (shr x k) 8

-- Splitting a 32-bit word into bytes and joining them gives the word.
pub word_of-byte_of :
    (x : ℕ) → x < 2 ^ 32 → word_of (byte_of x 0) (byte_of x 8) (byte_of x 16) (byte_of x 24) ≡ x
word_of-byte_of x h =
    rw
      (word_of_sum (byte_of x 0) (byte_of x 8) (byte_of x 16) (byte_of x 24) (omega arith)
        (omega arith) (omega arith) (omega arith))
      (omega arith)
