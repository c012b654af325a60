-- ===== src/Prelude/Bits.antt =====
-- Masks and shifts on bytes and 16-bit words as arithmetic.
use Prim.Native.Nat.{
  ℕ, zero, suc, ◌+◌, ◌*◌, ◌/◌, ◌%◌, ◌≤◌, ◌<◌, min, max, bit_and, bit_or, digits, bit_or-bitwise,
  bit_and-bitwise,
}
use mathlib.Core.Path.{◌≡◌, refl, ap, subst}
use mathlib.Core.Bool.{Bool, true, ◌&&◌}
use native.Mathlib.Omega.{arith}
use mqtt_broker_esp.Prelude.Tests.{◌==◌, ==_iff}

-- A table over a small range is checked by evaluation.
unfoldable pub every_below : ℕ → (ℕ → Bool) → Bool
every_below zero p = true
every_below (suc n) p = p n && every_below n p

pub every_below→at : (n : ℕ) (p : ℕ → Bool) (x : ℕ) → every_below n p ≡ true → x < n → p x ≡ true
unfolding every_below
every_below→at zero p x h lt = absurd (omega arith)
every_below→at (suc n) p x h lt = ground (arith, every_below→at n p x)

module _ (f g : ℕ → ℕ) where
  agree_table : (n : ℕ) → every_below n (λ x. f x == g x) ≡ true → (x : ℕ) → x < n → f x ≡ g x
  agree_table n h x lt = (==_iff (f x) (g x)).0 (every_below→at n (λ x. f x == g x) x h lt)

pub low_bits : (b : ℕ) → b < 256 → bit_and b 0x7F ≡ b % 128
unfolding every_below
low_bits = agree_table (λ b. bit_and b 0x7F) (λ b. b % 128) 256 refl

pub top_bit : (b : ℕ) → b < 256 → bit_and b 0x80 ≡ b / 128 * 128
unfolding every_below
top_bit = agree_table (λ b. bit_and b 0x80) (λ b. b / 128 * 128) 256 refl

pub set_top_bit : (b : ℕ) → b < 128 → bit_or b 0x80 ≡ b + 128
unfolding every_below
set_top_bit = agree_table (λ b. bit_or b 0x80) (λ b. b + 128) 128 refl

pub high_nibble : (b : ℕ) → b < 256 → bit_and b 0xF0 ≡ b / 16 * 16
unfolding every_below
high_nibble = agree_table (λ b. bit_and b 0xF0) (λ b. b / 16 * 16) 256 refl

pub low_nibble : (b : ℕ) → b < 256 → bit_and b 0x0F ≡ b % 16
unfolding every_below
low_nibble = agree_table (λ b. bit_and b 0x0F) (λ b. b % 16) 256 refl

pub low_byte : (b : ℕ) → b < 65536 → bit_and b 0xFF ≡ b % 256
unfolding every_below
low_byte = agree_table (λ b. bit_and b 0xFF) (λ b. b % 256) 65536 refl

-- A digit-wise operation, whatever count of digits is run through.
module _ (z : ℕ → ℕ) (f : ℕ → ℕ → ℕ) where
  pub digits_count : (n m a b : ℕ) → a ≤ n → a ≤ m → digits z f n a b ≡ digits z f m a b
  digits_count zero zero a b p q = refl
  digits_count zero (suc m) zero b p q = refl
  digits_count zero (suc m) (suc a) b p q = absurd (omega arith)
  digits_count (suc n) zero zero b p q = refl
  digits_count (suc n) zero (suc a) b p q = absurd (omega arith)
  digits_count (suc n) (suc m) zero b p q = refl
  digits_count (suc n) (suc m) (suc a) b p q =
      omega (arith, digits_count n m (suc a / 2) (b / 2) (omega arith) (omega arith))

pub zero-bit_or : (b : ℕ) → bit_or 0 b ≡ b
zero-bit_or b = bit_or-bitwise 0 b

pub bit_or_halves : (a b : ℕ) → bit_or a b ≡ bit_or (a / 2) (b / 2) * 2 + max (a % 2) (b % 2)
bit_or_halves zero b = omega (arith, zero-bit_or b, zero-bit_or (b / 2))
bit_or_halves (suc a) b = omega (
  arith,
  bit_or-bitwise (suc a) b,
  bit_or-bitwise (suc a / 2) (b / 2),
  digits_count (λ b. b) max a (suc a / 2) (suc a / 2) (b / 2) (omega arith) (omega arith),
)

bit_or-zero_below : (n a : ℕ) → a ≤ n → bit_or a 0 ≡ a
bit_or-zero_below n zero h = zero-bit_or 0
bit_or-zero_below zero (suc a) h = absurd (omega arith)
bit_or-zero_below (suc n) (suc a) h =
    omega (arith, bit_or_halves (suc a) 0, bit_or-zero_below n (suc a / 2) (omega arith))

-- Where the low digits of `x` are free, an `or` into them adds.
abbrev FreeBelow : ℕ → ℕ → Type 0
FreeBelow x p = (lo : ℕ) → lo < p → bit_or x lo ≡ x + lo

FreeBelow-double : (x p : ℕ) → FreeBelow x p → FreeBelow (x * 2) (p * 2)
FreeBelow-double x p free lo h =
    omega (arith, half, bit_or_halves (x * 2) lo, free (lo / 2) (omega arith))
  where
    half : bit_or (x * 2 / 2) (lo / 2) ≡ bit_or x (lo / 2)
    half = ap (λ t. bit_or t (lo / 2)) (omega arith)

-- `(hi << 8) | lo`
pub join_bytes : (hi lo : ℕ) → lo < 256 → bit_or (hi * 256) lo ≡ hi * 256 + lo
join_bytes hi lo h = subst (λ x. bit_or x lo ≡ x + lo) shifted (free lo h)
  where
    shifted : hi * 2 * 2 * 2 * 2 * 2 * 2 * 2 * 2 ≡ hi * 256
    shifted = omega arith

    one : FreeBelow hi 1
    one zero l = omega (arith, bit_or-zero_below hi hi (omega arith))
    one (suc lo) l = absurd (omega arith)

    double : (x p : ℕ) → FreeBelow x p → FreeBelow (x * 2) (p * 2)
    double = FreeBelow-double

    free : FreeBelow (hi * 2 * 2 * 2 * 2 * 2 * 2 * 2 * 2) 256
    free = double _ 128 (
        double _ 64
          (double _ 32 (double _ 16 (double _ 8 (double _ 4 (double _ 2 (double hi 1 one)))))))

zero-bit_and : (b : ℕ) → bit_and 0 b ≡ 0
zero-bit_and b = bit_and-bitwise 0 b

bit_and_halves : (a b : ℕ) → bit_and a b ≡ bit_and (a / 2) (b / 2) * 2 + min (a % 2) (b % 2)
bit_and_halves zero b = omega (arith, zero-bit_and b, zero-bit_and (b / 2))
bit_and_halves (suc a) b = omega (
  arith,
  bit_and-bitwise (suc a) b,
  bit_and-bitwise (suc a / 2) (b / 2),
  digits_count (λ b. zero) min a (suc a / 2) (suc a / 2) (b / 2) (omega arith) (omega arith),
)

-- A mask of two bits leaves a number below 4, of one bit a number below 2.
pub one_bit : (a : ℕ) → bit_and a 1 < 2
one_bit a = omega (arith, bit_and_halves a 1, none_of (a / 2) (a / 2) (omega arith))
  where
    none_of : (n a : ℕ) → a ≤ n → bit_and a 0 ≡ 0
    none_of n zero h = zero-bit_and 0
    none_of zero (suc a) h = absurd (omega arith)
    none_of (suc n) (suc a) h =
        omega (arith, bit_and_halves (suc a) 0, none_of n (suc a / 2) (omega arith))

pub two_bits : (a : ℕ) → bit_and a 3 < 4
two_bits a = omega (arith, bit_and_halves a 3, one_bit (a / 2))
