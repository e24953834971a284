-- ===== src/Base/Digits.antt =====
-- The digits that Rust's formatting gives, and `u32::from_str`, which reads them.
use Prim.Native.Nat.{ℕ, zero, suc, ◌+◌, ◌-◌, ◌*◌, ◌/◌, ◌%◌, ◌^◌, ◌≤◌, ◌<◌}
use proef.Base.Tests.{ltb, leb, ◌==◌, if◌then◌else◌, Bool-cases}
use proef.Base.Lists.{length, All}
use proef.Base.Texts.{Text}
use proef.Base.Printing.{digit, digits_from, decimal}
use mathlib.Core.Path.{◌≡◌, refl, ap, ◌∙◌}
use mathlib.Core.Logic.{inl, inr}
use mathlib.Core.Bool.{true, false, ◌&&◌}
use mathlib.Core.Option.{Option, none, some}
use mathlib.Core.List.{[], ◌∷◌}
use native.Mathlib.Omega.{arith}
use native.Mathlib.Nat.{mod-lt}

abbrev pub IsDigit : ℕ → ℕ → Type 0
IsDigit radix c = (d : ℕ) × (d < radix) × (c ≡ digit d)

-- The number has at most so many digits, and one at least.
abbrev pub Fits : ℕ → ℕ → ℕ → Type 0
Fits radix zero n = ⊥
Fits radix (suc zero) n = n < radix
Fits radix (suc (suc k)) n = Fits radix (suc k) (n / radix)

abbrev pub Printed : ℕ → ℕ → Text → Text → Type 0
Printed radix k after t =
    (length after < length t) × ((length t ≤ k + length after) × All (IsDigit radix) t)

pub digits_from-Printed :
    (fuel radix k n : ℕ) (after : Text)
    → 0 < radix
    → k ≤ fuel
    → Fits radix k n
    → All (IsDigit radix) after
    → Printed radix k after (digits_from fuel radix n after)
unfolding digits_from
digits_from-Printed zero radix zero n after pos enough fits h = elim fits [ ]
digits_from-Printed zero radix (suc k) n after pos enough fits h = absurd (omega arith)
digits_from-Printed (suc fuel) radix zero n after pos enough fits h = elim fits [ ]
digits_from-Printed (suc fuel) radix (suc zero) n after pos enough fits h =
    elim (Bool-cases (ltb n radix)) [
      | inl e ↦ rw e (omega arith, (omega arith, ((n, fits, refl), h)))
      | inr e ↦ absurd (ground arith)
    ]
digits_from-Printed (suc fuel) radix (suc (suc k)) n after pos enough fits h =
    elim (Bool-cases (ltb n radix)) [
      | inl e ↦ rw e (omega arith, (omega arith, ((n, ground arith, refl), h)))
      | inr e ↦
          let rest =
            digits_from-Printed fuel radix (suc k) (n / radix) (digit (n % radix) ∷ after) pos
              (omega arith) fits ((n % radix, mod-lt n pos, refl), h) in
          rw e (omega arith, (omega arith, rest.1.1))
    ]

-- The digits left, and the number so far.
unfoldable pub parse_from : ℕ → Text → Option ℕ
parse_from n [] = some n
parse_from n (c ∷ t) =
    let next = n * 10 + (c - 48) in
    let rest = parse_from next t in if leb 48 c && leb c 57 && ltb next (2 ^ 32) then rest else none

abbrev pub parse_some : Text → Option ℕ
parse_some [] = none
parse_some (c ∷ t) = parse_from 0 (c ∷ t)

-- `u32::from_str`: an optional plus sign and one digit at least, without an overflow.
unfoldable pub parse_u32 : Text → Option ℕ
unfolding parse_from
parse_u32 [] = none
parse_u32 (c ∷ t) = if c == 43 then parse_some t else parse_from 0 (c ∷ t)

parse_from-char :
    (n d : ℕ) (after : Text)
    → d < 10
    → n * 10 + d < 2 ^ 32
    → parse_from n ((48 + d) ∷ after) ≡ parse_from (n * 10 + d) after
unfolding parse_from
parse_from-char n d after lt small =
    let value : n * 10 + (48 + d - 48) ≡ n * 10 + d = omega arith in
    let above : leb 48 (48 + d) ≡ true = ground arith in
    let below : leb (48 + d) 57 ≡ true = ground arith in
    let fits : ltb (n * 10 + d) (2 ^ 32) ≡ true = ground arith in
    rw (value, above, below, fits) refl

pub digit_lem : (d : ℕ) → d < 10 → digit d ≡ 48 + d
unfolding digit
digit_lem d lt = ground arith

parse_from-digits_from :
    (fuel n : ℕ) (after : Text)
    → n < 2 ^ 32
    → n < 10 ^ fuel
    → parse_from 0 (digits_from fuel 10 n after) ≡ parse_from n after
unfolding digits_from
parse_from-digits_from zero n after small enough = let e : n ≡ 0 = omega arith in rw e refl
parse_from-digits_from (suc fuel) n after small enough = elim (Bool-cases (ltb n 10)) [
  | inl e ↦
      let value : 0 * 10 + n ≡ n = omega arith in
      rw e (
        parse_from-char 0 n after (ground arith) (omega arith) ∙ ap (λ v. parse_from v after) value)
  | inr e ↦
      let p : 10 ^ suc fuel ≡ 10 ^ fuel * 10 = omega arith in
      let value : n / 10 * 10 + n % 10 ≡ n = omega arith in
      rw e (
        parse_from-digits_from fuel (n / 10) (digit (n % 10) ∷ after) (omega arith) (omega arith)
        ∙ ap (λ c. parse_from (n / 10) (c ∷ after)) (digit_lem (n % 10) (omega arith))
        ∙ parse_from-char (n / 10) (n % 10) after (omega arith) (omega arith)
        ∙ ap (λ v. parse_from v after) value)
]

-- A text that starts with a digit is not taken for a sign.
parse_u32-starts : (t : Text) → 0 < length t → All (IsDigit 10) t → parse_u32 t ≡ parse_from 0 t
unfolding parse_u32
parse_u32-starts [] h all = absurd (omega arith)
parse_u32-starts (c ∷ t) h ((d, lt, e), all) =
    let other : (c == 43) ≡ false = ground (arith, digit_lem d lt) in rw other refl

pub decimal-Printed : (n : ℕ) → n < 2 ^ 32 → (0 < length (decimal n)) × All (IsDigit 10) (decimal n)
unfolding decimal
decimal-Printed n small =
    let p = digits_from-Printed 20 10 10 n [] (omega arith) (omega arith) (omega arith) tt in
    (p.0, p.1.1)

parse_from-decimal : (n : ℕ) → n < 2 ^ 32 → parse_from 0 (decimal n) ≡ parse_from n []
unfolding decimal
parse_from-decimal n small = parse_from-digits_from 20 n [] small (omega arith)

pub parse_u32-decimal : (n : ℕ) → n < 2 ^ 32 → parse_u32 (decimal n) ≡ some n
unfolding parse_from
parse_u32-decimal n small =
    let p = decimal-Printed n small in
    parse_u32-starts (decimal n) p.0 p.1 ∙ parse_from-decimal n small
