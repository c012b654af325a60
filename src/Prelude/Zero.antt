-- ===== src/Prelude/Zero.antt =====
-- When an `or` or an exclusive `or` is 0.
use Prim.Native.Nat.{
  ℕ, zero, suc, ◌+◌, ◌*◌, ◌/◌, ◌%◌, ◌≤◌, bit_or, bit_xor, differ, bit_xor-bitwise,
}
use mathlib.Core.Path.{◌≡◌, refl, ap, subst, ◌∙◌}
use mathlib.Core.Logic.{◌↔◌}
use native.Mathlib.Omega.{arith}
use mqtt_broker_esp.Prelude.Bits.{digits_count, zero-bit_or, bit_or_halves}

or_zero : (n a b : ℕ) → a ≤ n → bit_or a b ≡ 0 → (a ≡ 0) × (b ≡ 0)
or_zero n zero b h e = omega (arith, zero-bit_or b)
or_zero zero (suc a) b h e = absurd (omega arith)
or_zero (suc n) (suc a) b h e =
    let halves = bit_or_halves (suc a) b in
    let rest = or_zero n (suc a / 2) (b / 2) (omega arith) (omega (arith, halves)) in
    omega (arith, halves, rest)

pub bit_or-zero : (a b : ℕ) → (bit_or a b ≡ 0) ↔ ((a ≡ 0) × (b ≡ 0))
bit_or-zero a b =
    (or_zero a a b (omega arith), λ p. ap (λ t. bit_or t b) p.0 ∙ (zero-bit_or b ∙ p.1))

bit_xor_halves : (a b : ℕ) → bit_xor a b ≡ bit_xor (a / 2) (b / 2) * 2 + differ (a % 2) (b % 2)
bit_xor_halves zero b = omega (arith, bit_xor-bitwise 0 b, bit_xor-bitwise 0 (b / 2))
bit_xor_halves (suc a) b = omega (
  arith,
  bit_xor-bitwise (suc a) b,
  bit_xor-bitwise (suc a / 2) (b / 2),
  digits_count (λ b. b) differ a (suc a / 2) (suc a / 2) (b / 2) (omega arith) (omega arith),
)

differ-zero : (x y : ℕ) → differ x y ≡ 0 → x ≡ y
differ-zero zero y e = omega arith
differ-zero (suc x) zero e = e
differ-zero (suc x) (suc y) e = ap suc (differ-zero x y e)

differ_self : (x : ℕ) → differ x x ≡ 0
differ_self zero = refl
differ_self (suc x) = differ_self x

xor_same : (n a : ℕ) → a ≤ n → bit_xor a a ≡ 0
xor_same n zero h = bit_xor-bitwise 0 0
xor_same zero (suc a) h = absurd (omega arith)
xor_same (suc n) (suc a) h = omega (
  arith,
  bit_xor_halves (suc a) (suc a),
  xor_same n (suc a / 2) (omega arith),
  differ_self (suc a % 2),
)

xor_zero : (n a b : ℕ) → a ≤ n → bit_xor a b ≡ 0 → a ≡ b
xor_zero n zero b h e = omega (arith, bit_xor-bitwise 0 b)
xor_zero zero (suc a) b h e = absurd (omega arith)
xor_zero (suc n) (suc a) b h e =
    let halves = bit_xor_halves (suc a) b in
    let rest = xor_zero n (suc a / 2) (b / 2) (omega arith) (omega (arith, halves)) in
    let last = differ-zero (suc a % 2) (b % 2) (omega (arith, halves)) in omega (arith, rest, last)

pub bit_xor-zero : (a b : ℕ) → (bit_xor a b ≡ 0) ↔ (a ≡ b)
bit_xor-zero a b =
    (xor_zero a a b (omega arith), λ e. subst (λ t. bit_xor a t ≡ 0) e (xor_same a a (omega arith)))
