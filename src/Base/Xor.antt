-- ===== src/Base/Xor.antt =====
-- Exclusive or: it loses neither operand, and stays within a width.
pub use Prim.Native.Nat.{bit_xor}
use Prim.Native.Nat.{
  ℕ, zero, suc, ◌+◌, ◌*◌, ◌/◌, ◌%◌, ◌^◌, ◌≤◌, ◌<◌, differ, digits, bit_xor-bitwise,
}
use mathlib.Core.Path.{◌≡◌, refl, ap, ◌∙◌}
use mathlib.Core.Logic.{◌⊎◌}
use native.Mathlib.Nat.{pow-suc}
use native.Mathlib.Omega.{arith}

xor_digits : ℕ → ℕ → ℕ → ℕ
xor_digits n a b = digits (λ y. y) differ n a b

xor_digits_fuel : (n m a b : ℕ) → a ≤ n → a ≤ m → xor_digits n a b ≡ xor_digits m a b
unfolding xor_digits
xor_digits_fuel zero zero a b p q = refl
xor_digits_fuel zero (suc m) zero b p q = refl
xor_digits_fuel zero (suc m) (suc a) b p q = absurd (omega arith)
xor_digits_fuel (suc n) zero zero b p q = refl
xor_digits_fuel (suc n) zero (suc a) b p q = absurd (omega arith)
xor_digits_fuel (suc n) (suc m) zero b p q = refl
xor_digits_fuel (suc n) (suc m) (suc a) b p q =
    rw (xor_digits_fuel n m (suc a / 2) (b / 2) (omega arith) (omega arith))

-- A digit that is 0 or 1.
digit : (a : ℕ) → (a % 2 ≡ 0) ⊎ (a % 2 ≡ 1)
digit a = omega arith

-- The lowest digit of `^`.
bit_xor_step : (a b : ℕ) → bit_xor a b ≡ bit_xor (a / 2) (b / 2) * 2 + differ (a % 2) (b % 2)
unfolding xor_digits
bit_xor_step zero b = simp bit_xor-bitwise (omega arith)
bit_xor_step (suc a) b = omega (
  arith,
  bit_xor-bitwise (suc a) b,
  bit_xor-bitwise (suc a / 2) (b / 2),
  xor_digits_fuel a (suc a / 2) (suc a / 2) (b / 2) (omega arith) (omega arith),
)

-- The digit of `^` is that of the sum.
differ_sum : (a b : ℕ) → differ (a % 2) (b % 2) ≡ (a + b) % 2
differ_sum a b = omega (arith, by_digits (a % 2) (b % 2) (omega arith) (omega arith))
  where
    by_digits : (x y : ℕ) → x < 2 → y < 2 → differ x y ≡ (x + y) % 2
    by_digits zero zero p q = refl
    by_digits zero (suc zero) p q = refl
    by_digits (suc zero) zero p q = refl
    by_digits (suc zero) (suc zero) p q = refl
    by_digits (suc (suc x)) y p q = absurd (omega arith)
    by_digits zero (suc (suc y)) p q = absurd (omega arith)
    by_digits (suc zero) (suc (suc y)) p q = absurd (omega arith)

xor_sum : (a b : ℕ) → bit_xor a b ≡ bit_xor (a / 2) (b / 2) * 2 + (a + b) % 2
xor_sum a b = bit_xor_step a b ∙ ap (λ (x : ℕ). bit_xor (a / 2) (b / 2) * 2 + x) (differ_sum a b)

injective_left : (n a a' b : ℕ) → a ≤ n → a' ≤ n → bit_xor a b ≡ bit_xor a' b → a ≡ a'
injective_left zero a a' b p q e = omega arith
injective_left (suc n) a a' b p q e =
    let s = xor_sum a b in
    let s' = xor_sum a' b in
    let half : a / 2 ≡ a' / 2 =
      injective_left n (a / 2) (a' / 2) (b / 2) (omega arith) (omega arith) (omega arith) in
    omega arith

-- Equal with one operand equal: the other is.
pub bit_xor_injective_left : (a a' b : ℕ) → bit_xor a b ≡ bit_xor a' b → a ≡ a'
bit_xor_injective_left a a' b e = injective_left (a + a') a a' b (omega arith) (omega arith) e

injective_right : (n a b b' : ℕ) → b ≤ n → b' ≤ n → bit_xor a b ≡ bit_xor a b' → b ≡ b'
injective_right zero a b b' p q e = omega arith
injective_right (suc n) a b b' p q e =
    let s = xor_sum a b in
    let s' = xor_sum a b' in
    let half : b / 2 ≡ b' / 2 =
      injective_right n (a / 2) (b / 2) (b' / 2) (omega arith) (omega arith) (omega arith) in
    omega arith

pub bit_xor_injective_right : (a b b' : ℕ) → bit_xor a b ≡ bit_xor a b' → b ≡ b'
bit_xor_injective_right a b b' e = injective_right (b + b') a b b' (omega arith) (omega arith) e

pub bit_xor-lt : (k a b : ℕ) → a < 2 ^ k → b < 2 ^ k → bit_xor a b < 2 ^ k
bit_xor-lt zero a b p q =
    let ea : a ≡ 0 = omega arith in let eb : b ≡ 0 = omega arith in rw (ea, eb) (omega arith)
bit_xor-lt (suc k) a b p q = omega (
  arith,
  pow-suc 2 k,
  xor_sum a b,
  bit_xor-lt k (a / 2) (b / 2) (omega (arith, pow-suc 2 k)) (omega (arith, pow-suc 2 k)),
)
