-- ===== src/Base/Printing.antt =====
-- The parts of Rust's formatting and of UTF-8 that the program uses.
use proef.Base.Tests.{ltb, if◌then◌else◌}
use proef.Base.Texts.{Text}
use proef.Base.Lists.{length}
use Prim.Native.Nat.{ℕ, zero, suc, ◌+◌, ◌-◌, ◌/◌, ◌%◌, ◌≤◌}
use mathlib.Core.Path.{◌≡◌}
use mathlib.Core.List.{List, [], ◌∷◌}
use native.Mathlib.Omega.{arith}

-- The bytes of a code point in UTF-8, before the bytes that follow.
unfoldable pub char_bytes : ℕ → List ℕ → List ℕ
char_bytes c after =
    if ltb c 0x80
    then c ∷ after
    else if ltb c 0x800
    then (0xc0 + c / 64) ∷ (0x80 + c % 64) ∷ after
    else if ltb c 0x1_0000
    then (0xe0 + c / 4096) ∷ (0x80 + c / 64 % 64) ∷ (0x80 + c % 64) ∷ after
    else (0xf0 + c / 26_2144)
      ∷ (0x80 + c / 4096 % 64)
      ∷ (0x80 + c / 64 % 64)
      ∷ (0x80 + c % 64)
      ∷ after

-- `str::bytes`
unfoldable pub bytes : Text → List ℕ
unfolding char_bytes
bytes [] = []
bytes (c ∷ t) = char_bytes c (bytes t)

-- A digit, in lower case.
unfoldable pub digit : ℕ → ℕ
digit d = if ltb d 10 then 48 + d else 87 + d

-- The digits of a number in front of a text. The fuel is more than a `u64` has digits.
unfoldable pub digits_from : ℕ → ℕ → ℕ → Text → Text
unfolding digit
digits_from zero radix n after = after
digits_from (suc fuel) radix n after =
    let more = digits_from fuel radix (n / radix) (digit (n % radix) ∷ after) in
    if ltb n radix then digit n ∷ after else more

-- `{}` of a `u64`.
unfoldable pub decimal : ℕ → Text
unfolding digits_from
decimal n = digits_from 20 10 n []

abbrev pub zeros : ℕ → Text → Text
zeros zero t = t
zeros (suc n) t = 48 ∷ zeros n t

-- `{:0w}` of a text of digits.
unfoldable pub padded : ℕ → Text → Text
padded width t = zeros (width - length t) t

-- `{:0wx}` of a `u64`.
unfoldable pub hexadecimal : ℕ → ℕ → Text
unfolding digits_from padded
hexadecimal width n = padded width (digits_from 20 16 n [])

length-zeros : (n : ℕ) (t : Text) → length (zeros n t) ≡ n + length t
length-zeros zero t = omega arith
length-zeros (suc n) t = omega (arith, length-zeros n t)

pub length-padded : (width : ℕ) (t : Text) → length t ≤ width → length (padded width t) ≡ width
unfolding padded
length-padded width t h = omega (arith, length-zeros (width - length t) t)
