-- ===== src/Base/Words.antt =====
-- The bit operations of machine words stay within the width of the word.
use Prim.Native.Nat.{
  ℕ, zero, suc, ◌+◌, ◌-◌, ◌*◌, ◌/◌, ◌%◌, ◌^◌, ◌≤◌, ◌<◌, min, max, bit_and, bit_or, bit_xor, digits,
  differ, bit_and-bitwise, bit_or-bitwise, bit_xor-bitwise,
}
use mathlib.Core.Path.{◌≡◌, subst, sym}
use native.Mathlib.Omega.{arith}

-- `u64::wrapping_mul` and `u64::wrapping_add`
abbrev pub wrapping_mul : ℕ → ℕ → ℕ
wrapping_mul a b = a * b % 2 ^ 64

abbrev pub wrapping_add : ℕ → ℕ → ℕ
wrapping_add a b = (a + b) % 2 ^ 64

-- `u64::rotate_left`, by less than 64.
abbrev pub rotate_left : ℕ → ℕ → ℕ
rotate_left a k = a * 2 ^ k % 2 ^ 64 + a / 2 ^ (64 - k)

halve : (k n : ℕ) → n < 2 ^ suc k → n / 2 < 2 ^ k
halve k n h = let p : 2 ^ suc k ≡ 2 ^ k * 2 = omega arith in omega arith

IsBit : (ℕ → ℕ → ℕ) → Type 0
IsBit f = (x y : ℕ) → x < 2 → y < 2 → f x y < 2

digits-lt :
    (z : ℕ → ℕ) (f : ℕ → ℕ → ℕ)
    → ((b : ℕ) → z b ≤ b)
    → IsBit f
    → (n k a b : ℕ) → a < 2 ^ k
    → b < 2 ^ k
    → digits z f n a b < 2 ^ k
unfolding IsBit
digits-lt z f hz hf zero k a b ha hb = omega (arith, hz b)
digits-lt z f hz hf (suc n) k zero b ha hb = omega (arith, hz b)
digits-lt z f hz hf (suc n) zero (suc a) b ha hb = absurd (omega arith)
digits-lt z f hz hf (suc n) (suc k) (suc a) b ha hb =
    let p : 2 ^ suc k ≡ 2 ^ k * 2 = omega arith in
    omega (
      arith,
      digits-lt z f hz hf n k (suc a / 2) (b / 2) (halve k (suc a) ha) (halve k b hb),
      hf (suc a % 2) (b % 2) (omega arith) (omega arith),
    )

differ-IsBit : IsBit differ
unfolding IsBit
differ-IsBit zero y hx hy = hy
differ-IsBit (suc zero) zero hx hy = omega arith
differ-IsBit (suc zero) (suc y) hx hy = omega arith
differ-IsBit (suc (suc x)) y hx hy = absurd (omega arith)

max-IsBit : IsBit max
unfolding IsBit
max-IsBit x y hx hy = omega arith

pub bit_xor-lt : (k a b : ℕ) → a < 2 ^ k → b < 2 ^ k → bit_xor a b < 2 ^ k
bit_xor-lt k a b ha hb =
    subst (λ v. v < 2 ^ k) (sym (bit_xor-bitwise a b))
      (digits-lt (λ b. b) differ (λ b. omega arith) differ-IsBit a k a b ha hb)

pub bit_or-lt : (k a b : ℕ) → a < 2 ^ k → b < 2 ^ k → bit_or a b < 2 ^ k
bit_or-lt k a b ha hb =
    subst (λ v. v < 2 ^ k) (sym (bit_or-bitwise a b))
      (digits-lt (λ b. b) max (λ b. omega arith) max-IsBit a k a b ha hb)

and_digits-le : (n a b : ℕ) → digits (λ b. zero) min n a b ≤ b
and_digits-le zero a b = omega arith
and_digits-le (suc n) zero b = omega arith
and_digits-le (suc n) (suc a) b = omega (arith, and_digits-le n (suc a / 2) (b / 2))

pub bit_and-le : (a b : ℕ) → bit_and a b ≤ b
bit_and-le a b = subst (λ v. v ≤ b) (sym (bit_and-bitwise a b)) (and_digits-le a a b)
