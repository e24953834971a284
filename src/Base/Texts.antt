-- ===== src/Base/Texts.antt =====
-- Text as the list of its code points, with the operations of Rust's `str` that the program uses.
use Prim.Native.Char.{code}
use proef.Base.Tests.{◌==◌, ltb, leb, if◌then◌else◌}
use Prim.Native.String.{String}
use Prim.Native.Nat.{ℕ, ◌+◌}
use mathlib.Core.Path.{◌≡◌, refl}
use mathlib.Core.Logic.{◌↔◌}
use mathlib.Core.Bool.{Bool, true, false, ◌&&◌, ◌||◌}
use mathlib.Core.Option
use mathlib.Core.Option.{Option, none, some}
use mathlib.Core.List.{List, [], ◌∷◌, reverse}
use native.Mathlib.Omega.{arith}

abbrev pub Text : Type 0
Text = List ℕ

-- A text literal.
abbrev pub codes : String → Text
codes String.[] = []
codes (String.◌∷◌ c s) = code c ∷ codes s

unfoldable pub text_eq : Text → Text → Bool
text_eq [] [] = true
text_eq (a ∷ s) (b ∷ t) = a == b && text_eq s t
text_eq _ _ = false

pub text_eq_iff : (s t : Text) → (text_eq s t ≡ true) ↔ (s ≡ t)
unfolding text_eq
text_eq_iff [] [] = ground arith
text_eq_iff (a ∷ s) (b ∷ t) = ground (arith, text_eq_iff s t)
text_eq_iff [] (b ∷ t) = ground arith
text_eq_iff (a ∷ s) [] = ground arith

pub text_eq_refl : (s : Text) → text_eq s s ≡ true
text_eq_refl s = (text_eq_iff s s).1 refl

-- `str`'s order, byte by byte of UTF-8, which is the order by code points.
unfoldable pub text_lt : Text → Text → Bool
text_lt [] [] = false
text_lt [] (b ∷ t) = true
text_lt (a ∷ s) [] = false
text_lt (a ∷ s) (b ∷ t) = if ltb a b then true else a == b && text_lt s t

-- `str::strip_prefix`
unfoldable pub strip_prefix : Text → Text → Option Text
strip_prefix [] s = some s
strip_prefix (a ∷ p) [] = none
strip_prefix (a ∷ p) (b ∷ s) = if a == b then strip_prefix p s else none

-- `str::find` and the slices at what it finds: the text before the leftmost occurrence of the
-- needle, and the text from there on.
unfoldable pub split_at_find : Text → Text → Option (Text × Text)
unfolding strip_prefix
split_at_find needle [] = elim (strip_prefix needle []) [ none ↦ none | some _ ↦ some ([], []) ]
split_at_find needle (c ∷ s) = elim (strip_prefix needle (c ∷ s)) [
  | some _ ↦ some ([], c ∷ s)
  | none ↦ Option.map (λ (r : Text × Text). (c ∷ r.0, r.1)) (split_at_find needle s)
]

-- `str::find` for one character, with the text before it and the text after it.
unfoldable pub split_once_char : ℕ → Text → Option (Text × Text)
split_once_char c [] = none
split_once_char c (x ∷ s) =
    let later = Option.map (λ (r : Text × Text). (x ∷ r.0, r.1)) (split_once_char c s) in
    if x == c then some ([], s) else later

-- `char::is_whitespace`: the code points with the property White_Space.
unfoldable pub is_whitespace : ℕ → Bool
is_whitespace c =
    (leb 9 c && leb c 13)
    || c == 32
    || c == 0x85
    || c == 0xa0
    || c == 0x1680
    || (leb 0x2000 c && leb c 0x200a)
    || c == 0x2028
    || c == 0x2029
    || c == 0x202f
    || c == 0x205f
    || c == 0x3000

unfoldable pub trim_start : Text → Text
unfolding is_whitespace
trim_start [] = []
trim_start (c ∷ s) = let rest = trim_start s in if is_whitespace c then rest else c ∷ s

-- `str::trim`
unfoldable pub trim : Text → Text
unfolding trim_start
trim s = reverse (trim_start (reverse (trim_start s)))

-- The bytes of a code point in UTF-8, and of a text.
unfoldable pub char_len : ℕ → ℕ
char_len c = if ltb c 0x80 then 1 else if ltb c 0x800 then 2 else if ltb c 0x1_0000 then 3 else 4

unfoldable pub byte_len : Text → ℕ
unfolding char_len
byte_len [] = 0
byte_len (c ∷ s) = char_len c + byte_len s
