-- ===== src/Fake/Printed.antt =====
-- crates/proef-core/src/fake.rs: the digits that `format!` gives, and the bounds of what is drawn.
use Prim.Native.Nat.{bit_and, bit_or}
use proef.Base.{ℕ, zero, suc, ◌^◌, ◌≤◌, ◌<◌, refl, [], All, arith}
use proef.Base.Texts.{Text}
use proef.Base.Words.{bit_xor-lt, bit_or-lt, bit_and-le}
use proef.Base.Printing.{digit, digits_from, decimal, zeros, padded, hexadecimal, length-padded}
use proef.Fake.{shift_xor, mixed, next_u64, below}
use proef.Base.Digits.{IsDigit, Fits, digits_from-Printed}
use proef.Fake.Shapes.{Is, digits, up_to}
use native.Mathlib.Nat.{mod-lt}

zeros-IsDigit :
    (radix n : ℕ) (t : Text) → 0 < radix → All (IsDigit radix) t → All (IsDigit radix) (zeros n t)
unfolding digit
zeros-IsDigit radix zero t pos h = h
zeros-IsDigit radix (suc n) t pos h = ((0, pos, refl), zeros-IsDigit radix n t pos h)

padded-digits :
    (radix width k n : ℕ)
    → 0 < radix
    → k ≤ 20
    → k ≤ width
    → Fits radix k n
    → Is (digits radix width) (padded width (digits_from 20 radix n []))
padded-digits radix width k n pos enough wide fits =
    let p = digits_from-Printed 20 radix k n [] pos enough fits tt in
    (
      length-padded width (digits_from 20 radix n []) (omega arith),
      unfold padded in zeros-IsDigit radix _ (digits_from 20 radix n []) pos p.1.1,
    )

pub decimal-up_to : (k n : ℕ) → k ≤ 20 → Fits 10 k n → Is (up_to k) (decimal n)
unfolding decimal
decimal-up_to k n enough fits =
    let p = digits_from-Printed 20 10 k n [] (omega arith) enough fits tt in
    (p.0, (omega arith, p.1.1))

pub decimal-digits :
    (width n : ℕ) → width ≤ 20 → Fits 10 width n → Is (digits 10 width) (padded width (decimal n))
unfolding decimal
decimal-digits width n enough fits =
    padded-digits 10 width width n (omega arith) enough (omega arith) fits

pub hexadecimal-digits :
    (width n : ℕ) → width ≤ 20 → Fits 16 width n → Is (digits 16 width) (hexadecimal width n)
unfolding hexadecimal
hexadecimal-digits width n enough fits =
    padded-digits 16 width width n (omega arith) enough (omega arith) fits

pub next_u64-lt : (state : ℕ) → (next_u64 state).0 < 2 ^ 64
unfolding next_u64 mixed shift_xor
next_u64-lt state = bit_xor-lt 64 _ _ (omega arith) (omega arith)

pub below-lt : (n state : ℕ) → 0 < n → (below n state).0 < n
unfolding below
below-lt n state h = mod-lt (next_u64 state).0 h

pub variant-lt : (b : ℕ) → bit_or 0x8000 (bit_and b 0x3FFF) < 2 ^ 16
variant-lt b = bit_or-lt 16 _ _ (omega arith) (omega (arith, bit_and-le b 0x3FFF))
