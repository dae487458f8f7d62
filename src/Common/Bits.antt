-- ===== src/Common/Bits.antt =====
-- `bit_or` of numbers whose digits do not meet is their sum.
use Prim.Native.Nat.{
  ℕ, zero, suc, ◌+◌, ◌-◌, ◌*◌, ◌/◌, ◌%◌, ◌≤◌, ◌<◌, max, bit_or, digits, bit_or-bitwise,
}
use mathlib.Core.Path.{◌≡◌, refl, sym, ap, ◌∙◌}
use native.Mathlib.Omega.{arith}

abbrev or_digits : ℕ → ℕ → ℕ → ℕ
or_digits n a b = digits (λ b. b) max n a b

-- More fuel than the first number needs changes nothing.
or_digits-more : (a b n extra : ℕ) → a ≤ n → or_digits (n + extra) a b ≡ or_digits n a b
or_digits-more zero b zero zero le = refl
or_digits-more zero b zero (suc extra) le = spare (0 + suc extra)
  where
    spare : (m : ℕ) → or_digits m 0 b ≡ b
    spare zero = refl
    spare (suc m) = refl
or_digits-more zero b (suc n) extra le =
    ap (λ m. or_digits m 0 b) {y = suc (n + extra)} (omega arith)
or_digits-more (suc a) b zero extra le = absurd (omega arith)
or_digits-more (suc a) b (suc n) extra le =
    ap (λ m. or_digits m (suc a) b) {y = suc (n + extra)} (omega arith)
    ∙ ap (λ d. d * 2 + max (suc a % 2) (b % 2))
        (or_digits-more (suc a / 2) (b / 2) n extra (omega arith))

or_digits-enough : (a b n : ℕ) → a ≤ n → or_digits n a b ≡ bit_or a b
or_digits-enough a b n le =
    ap (λ m. or_digits m a b) {y = a + (n - a)} (omega arith)
    ∙ or_digits-more a b a (n - a) (omega arith)
    ∙ sym (bit_or-bitwise a b)

zero-bit_or : (b : ℕ) → bit_or 0 b ≡ b
zero-bit_or b = bit_or-bitwise 0 b

-- The lowest digit, and the others.
bit_or_step : (a b : ℕ) → bit_or a b ≡ bit_or (a / 2) (b / 2) * 2 + max (a % 2) (b % 2)
bit_or_step zero b = omega (arith, zero-bit_or b, zero-bit_or (b / 2))
bit_or_step (suc a) b =
    bit_or-bitwise (suc a) b
    ∙ ap (λ d. d * 2 + max (suc a % 2) (b % 2))
        (or_digits-enough (suc a / 2) (b / 2) a (omega arith))

bit_or-zero_below : (n b : ℕ) → b ≤ n → bit_or b 0 ≡ b
bit_or-zero_below zero b le = ap (λ k. bit_or k 0) {y = 0} (omega arith) ∙ omega arith
bit_or-zero_below (suc n) zero le = refl
bit_or-zero_below (suc n) (suc b) le =
    omega (arith, bit_or_step (suc b) 0, bit_or-zero_below n (suc b / 2) (omega arith))

-- Below `n`, a number has no digit where a multiple of `n` has one.
Apart : ℕ → Type 0
Apart n = (a b : ℕ) → a < n → (bit_or a (b * n) ≡ a + b * n) × (bit_or (b * n) a ≡ a + b * n)

Apart-one : Apart 1
unfolding Apart
Apart-one zero b lt = (
  omega (arith, zero-bit_or (b * 1)),
  omega (arith, bit_or-zero_below (b * 1) (b * 1) (omega arith)),
)
Apart-one (suc a) b lt = absurd (omega arith)

Apart-double : (n : ℕ) → Apart n → Apart (2 * n)
unfolding Apart
Apart-double n h a b lt = (
  bit_or_step a (b * (2 * n))
      ∙ omega (arith, doubled, ap (bit_or (a / 2)) halved, (h (a / 2) b (omega arith)).0),
  bit_or_step (b * (2 * n)) a
      ∙ omega (arith, doubled, ap (λ k. bit_or k (a / 2)) halved, (h (a / 2) b (omega arith)).1),
)
  where
    doubled : b * (2 * n) ≡ 2 * (b * n)
    doubled = grind arith

    halved : b * (2 * n) / 2 ≡ b * n
    halved = omega (arith, doubled)

Apart-256 : Apart 256
Apart-256 = Apart-double 128 (
    Apart-double 64 (
      Apart-double 32 (
        Apart-double 16
          (Apart-double 8 (Apart-double 4 (Apart-double 2 (Apart-double 1 Apart-one)))))))

pub bit_or_bytes : (a b : ℕ) → a < 256 → bit_or a (b * 256) ≡ a + b * 256
unfolding Apart
bit_or_bytes a b lt = (Apart-256 a b lt).0

pub bit_or_high : (a b : ℕ) → a < 256 → bit_or (b * 256) a ≡ a + b * 256
unfolding Apart
bit_or_high a b lt = (Apart-256 a b lt).1
