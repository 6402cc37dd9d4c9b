-- ===== src/Common/Bits.antt =====
-- When the exclusive or and the or of two numbers are zero.
use Prim.Native.Nat.{
  ℕ, zero, suc, ◌/◌, ◌%◌, ◌≤◌, max, digits, differ, bit_or, bit_xor, bit_or-bitwise,
  bit_xor-bitwise,
}
use mathlib.Core.Path.{◌≡◌, refl, sym, ◌∙◌}
use native.Mathlib.Omega.{arith}

differ-zero : (x y : ℕ) → differ x y ≡ 0 → x ≡ y
differ-zero zero y e = sym e
differ-zero (suc x) zero e = e
differ-zero (suc x) (suc y) e = omega (arith, differ-zero x y e)

differ-same : (x : ℕ) → differ x x ≡ 0
differ-same zero = refl
differ-same (suc x) = differ-same x

xor_digits : (n a b : ℕ) → a ≤ n → digits (λ b. b) differ n a b ≡ 0 → a ≡ b
xor_digits zero a b h e = omega (arith, e)
xor_digits (suc n) zero b h e = sym e
xor_digits (suc n) (suc a) b h e =
    let high : digits (λ b. b) differ n (suc a / 2) (b / 2) ≡ 0 = omega (arith, e) in
    let low : differ (suc a % 2) (b % 2) ≡ 0 = omega (arith, e) in
    omega (
      arith,
      xor_digits n (suc a / 2) (b / 2) (omega arith) high,
      differ-zero (suc a % 2) (b % 2) low,
    )

same_digits : (n a : ℕ) → a ≤ n → digits (λ b. b) differ n a a ≡ 0
same_digits zero a h = omega arith
same_digits (suc n) zero h = refl
same_digits (suc n) (suc a) h =
    omega (arith, same_digits n (suc a / 2) (omega arith), differ-same (suc a % 2))

or_digits : (n a b : ℕ) → a ≤ n → digits (λ b. b) max n a b ≡ 0 → (a ≡ 0) × (b ≡ 0)
or_digits zero a b h e = (omega arith, e)
or_digits (suc n) zero b h e = (refl, e)
or_digits (suc n) (suc a) b h e =
    let high : digits (λ b. b) max n (suc a / 2) (b / 2) ≡ 0 = omega (arith, e) in
    let low : max (suc a % 2) (b % 2) ≡ 0 = omega (arith, e) in
    let (x, y) = or_digits n (suc a / 2) (b / 2) (omega arith) high in
    (omega (arith, low), omega (arith, low))

pub bit_xor-zero : (a b : ℕ) → bit_xor a b ≡ 0 → a ≡ b
bit_xor-zero a b e = xor_digits a a b (omega arith) (sym (λ i. bit_xor-bitwise a b i) ∙ e)

pub bit_xor-same : (a : ℕ) → bit_xor a a ≡ 0
bit_xor-same a = (λ i. bit_xor-bitwise a a i) ∙ same_digits a a (omega arith)

pub bit_or-zero : (a b : ℕ) → bit_or a b ≡ 0 → (a ≡ 0) × (b ≡ 0)
bit_or-zero a b e = or_digits a a b (omega arith) (sym (λ i. bit_or-bitwise a b i) ∙ e)
