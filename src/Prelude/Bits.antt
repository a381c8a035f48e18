-- ===== src/Prelude/Bits.antt =====
-- When `|` and `^` of two numbers are 0, at every width.
use Prim.Native.Nat.{
  ℕ, zero, suc, ◌/◌, ◌%◌, ◌≤◌, max, differ, digits, bit_or, bit_xor, bit_or-bitwise,
  bit_xor-bitwise,
}
use mathlib.Core.Path.{◌≡◌, refl}
use native.Mathlib.Nat.{le_refl}
use native.Mathlib.Omega.{arith}

differ-eq-zero : (x y : ℕ) → differ x y ≡ 0 → x ≡ y
differ-eq-zero zero y h = omega (arith, h)
differ-eq-zero (suc x) zero h = absurd (omega arith)
differ-eq-zero (suc x) (suc y) h = omega (arith, differ-eq-zero x y h)

differ_self : (x : ℕ) → differ x x ≡ 0
differ_self zero = refl
differ_self (suc x) = differ_self x

xor_digits-zero : (n a b : ℕ) → a ≤ n → digits (λ y. y) differ n a b ≡ 0 → a ≡ b
xor_digits-zero zero zero b p h = omega (arith, h)
xor_digits-zero zero (suc a) b p h = absurd (omega arith)
xor_digits-zero (suc n) zero b p h = omega (arith, h)
xor_digits-zero (suc n) (suc a) b p h =
    let e : suc a % 2 ≡ b % 2 = differ-eq-zero (suc a % 2) (b % 2) (omega (arith, h)) in
    omega (arith, xor_digits-zero n (suc a / 2) (b / 2) (omega arith) (omega (arith, h)))

xor_digits_self : (n a : ℕ) → a ≤ n → digits (λ y. y) differ n a a ≡ 0
xor_digits_self zero zero p = refl
xor_digits_self zero (suc a) p = absurd (omega arith)
xor_digits_self (suc n) zero p = refl
xor_digits_self (suc n) (suc a) p =
    omega (arith, xor_digits_self n (suc a / 2) (omega arith), differ_self (suc a % 2))

or_digits-zero : (n a b : ℕ) → a ≤ n → digits (λ y. y) max n a b ≡ 0 → (a ≡ 0) × (b ≡ 0)
or_digits-zero zero zero b p h = (refl, h)
or_digits-zero zero (suc a) b p h = absurd (omega arith)
or_digits-zero (suc n) zero b p h = (refl, h)
or_digits-zero (suc n) (suc a) b p h =
    let (x, y) = or_digits-zero n (suc a / 2) (b / 2) (omega arith) (omega (arith, h)) in
    (omega (arith, h), omega (arith, h))

pub bit_xor-eq-zero : (a b : ℕ) → bit_xor a b ≡ 0 → a ≡ b
bit_xor-eq-zero a b h = xor_digits-zero a a b (le_refl a) (rw bit_xor-bitwise at h)

pub bit_xor_self : (a : ℕ) → bit_xor a a ≡ 0
bit_xor_self a = simp bit_xor-bitwise (xor_digits_self a a (le_refl a))

pub bit_or-eq-zero : (a b : ℕ) → bit_or a b ≡ 0 → (a ≡ 0) × (b ≡ 0)
bit_or-eq-zero a b h = or_digits-zero a a b (le_refl a) (rw bit_or-bitwise at h)
