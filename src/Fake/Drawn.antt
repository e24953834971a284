-- ===== src/Fake/Drawn.antt =====
-- crates/proef-core/src/fake.rs: what each generator draws has the form that it promises.
use Prim.Native.Nat.{bit_and, bit_or}
use proef.Base.{
  ℕ, zero, suc, ◌/◌, ◌^◌, ◌<◌, ◌+◌, ◌≡◌, refl, ap, Bool-cases, List, [], ◌∷◌, map, length, Any,
  ◌==◌, inl, inr, arith,
}
use proef.Base.Texts.{Text, codes}
use proef.Base.Words.{bit_and-le}
use proef.Fake.{
  Rng, next_u64, below, item, pick, upper_letter, first_names, last_names, cities, streets, words,
  to_lowercase, space, dash, full_name, email, username, phone, post_code, street, number, digits4,
  digits8, flag, uuid, uuid_of,
}
use proef.Fake.Shapes.{Piece, literal, one_of, digits, up_to, capital, Is, Matches}
use proef.Fake.Printed.{
  decimal-up_to, decimal-digits, hexadecimal-digits, next_u64-lt, below-lt, variant-lt,
}

item-Any : (items : List Text) (i : ℕ) → i < length items → Any (λ t. item items i ≡ t) items
item-Any [] i h = absurd (omega arith)
item-Any (t ∷ items) zero h = inl refl
item-Any (t ∷ items) (suc i) h = inr (item-Any items i (omega arith))

lowercase-Any :
    (t : Text) (items : List Text)
    → Any (λ u. t ≡ u) items
    → Any (λ u. to_lowercase t ≡ u) (map to_lowercase items)
lowercase-Any t [] h = h
lowercase-Any t (u ∷ items) (inl e) = inl (ap to_lowercase e)
lowercase-Any t (u ∷ items) (inr h) = inr (lowercase-Any t items h)

pick-one_of : (items : List Text) (s : ℕ) → 0 < length items → Is (one_of items) (pick items s).0
unfolding pick
pick-one_of items s h = item-Any items (below (length items) s).0 (below-lt (length items) s h)

upper_letter-capital : (s : ℕ) → Is capital (upper_letter s).0
unfolding upper_letter
upper_letter-capital s =
    (65 + (below 26 s).0, omega arith, omega (arith, below-lt 26 s (omega arith)), refl)

unfoldable pub Draws : List Piece → Rng Text → Type 0
Draws ps draw = (s : ℕ) → Matches ps (draw s).0

first-Is : (s : ℕ) → Is (one_of first_names) (pick first_names s).0
first-Is s = pick-one_of first_names s (omega arith)

last-Is : (s : ℕ) → Is (one_of last_names) (pick last_names s).0
last-Is s = pick-one_of last_names s (omega arith)

pub full_name-Draws : Draws (one_of first_names ∷ literal space ∷ one_of last_names ∷ []) full_name
unfolding Draws
full_name-Draws s = (_, _, refl, first-Is s, (space, _, refl, refl, last-Is (pick first_names s).1))

pub first_name-Draws : Draws (one_of first_names ∷ []) (pick first_names)
unfolding Draws
first_name-Draws s = first-Is s

pub last_name-Draws : Draws (one_of last_names ∷ []) (pick last_names)
unfolding Draws
last_name-Draws s = last-Is s

pub city-Draws : Draws (one_of cities ∷ []) (pick cities)
unfolding Draws
city-Draws s = pick-one_of cities s (omega arith)

pub word-Draws : Draws (one_of words ∷ []) (pick words)
unfolding Draws
word-Draws s = pick-one_of words s (omega arith)

pub email-Draws :
    Draws
      (one_of (map to_lowercase first_names)
        ∷ literal (codes ".")
        ∷ one_of (map to_lowercase last_names)
        ∷ literal (codes "@example.com")
        ∷ [])
      email
unfolding Draws
email-Draws s =
    let s' = (pick first_names s).1 in
    (
      _,
      _,
      refl,
      lowercase-Any (pick first_names s).0 first_names (first-Is s),
      (
        codes ".",
        _,
        refl,
        refl,
        (_, _, refl, lowercase-Any (pick last_names s').0 last_names (last-Is s'), refl),
      ),
    )

pub username-Draws : Draws (one_of (map to_lowercase first_names) ∷ up_to 3 ∷ []) username
unfolding Draws
username-Draws s =
    let s' = (pick first_names s).1 in
    (
      _,
      _,
      refl,
      lowercase-Any (pick first_names s).0 first_names (first-Is s),
      decimal-up_to 3 (below 1000 s').0 (omega arith)
          (omega (arith, below-lt 1000 s' (omega arith))),
    )

pub phone-Draws : Draws (literal (codes "06") ∷ digits 10 8 ∷ []) phone
unfolding Draws
phone-Draws s = (
  codes "06",
  _,
  refl,
  refl,
  decimal-digits 8 (below 100000000 s).0 (omega arith)
      (omega (arith, below-lt 100000000 s (omega arith))),
)

pub post_code-Draws : Draws (digits 10 4 ∷ literal space ∷ capital ∷ capital ∷ []) post_code
unfolding Draws
post_code-Draws s =
    let n = below 9000 s in
    let a = upper_letter n.1 in
    (
      _,
      _,
      refl,
      decimal-digits 4 (1000 + n.0) (omega arith) (omega (arith, below-lt 9000 s (omega arith))),
      (space, _, refl, refl, (_, _, refl, upper_letter-capital n.1, upper_letter-capital a.1)),
    )

pub street-Draws : Draws (one_of streets ∷ literal space ∷ up_to 3 ∷ []) street
unfolding Draws
street-Draws s =
    let s' = (pick streets s).1 in
    (
      _,
      _,
      refl,
      pick-one_of streets s (omega arith),
      (
        space,
        _,
        refl,
        refl,
        decimal-up_to 3 (1 + (below 200 s').0) (omega arith)
            (omega (arith, below-lt 200 s' (omega arith))),
      ),
    )

pub number-Draws : Draws (up_to 4 ∷ []) number
unfolding Draws
number-Draws s =
    decimal-up_to 4 (below 10000 s).0 (omega arith) (omega (arith, below-lt 10000 s (omega arith)))

pub digits4-Draws : Draws (digits 10 4 ∷ []) digits4
unfolding Draws
digits4-Draws s =
    decimal-digits 4 (below 10000 s).0 (omega arith) (omega (arith, below-lt 10000 s (omega arith)))

pub digits8-Draws : Draws (digits 10 8 ∷ []) digits8
unfolding Draws
digits8-Draws s =
    decimal-digits 8 (below 100000000 s).0 (omega arith)
      (omega (arith, below-lt 100000000 s (omega arith)))

pub flag-Draws : Draws (one_of (codes "true" ∷ codes "false" ∷ []) ∷ []) flag
unfolding Draws
flag-Draws s = elim (Bool-cases (bit_and (next_u64 s).0 1 == 1)) [
  | inl e ↦ rw e (inl refl)
  | inr e ↦ rw e (inr (inl refl))
]

abbrev pub uuid_shape : List Piece
uuid_shape =
    digits 16 8
    ∷ literal dash
    ∷ digits 16 4
    ∷ literal (codes "-4")
    ∷ digits 16 3
    ∷ literal dash
    ∷ digits 16 4
    ∷ literal dash
    ∷ digits 16 12
    ∷ []

uuid_of-Matches : (a b : ℕ) → a < 2 ^ 64 → Matches uuid_shape (uuid_of a b)
uuid_of-Matches a b ha =
    let variant = bit_or 0x8000 (bit_and (b / 2 ^ 48) 0x3FFF) in
    let tail =
      hexadecimal-digits 12 (bit_and b 0xFFFFFFFFFFFF) (omega arith)
        (omega (arith, bit_and-le b 0xFFFFFFFFFFFF)) in
    let back =
      hexadecimal-digits 4 variant (omega arith) (omega (arith, variant-lt (b / 2 ^ 48))) in
    let middle =
      hexadecimal-digits 3 (bit_and a 0xFFF) (omega arith) (omega (arith, bit_and-le a 0xFFF)) in
    let second =
      hexadecimal-digits 4 (bit_and (a / 2 ^ 16) 0xFFFF) (omega arith)
        (omega (arith, bit_and-le (a / 2 ^ 16) 0xFFFF)) in
    let front = hexadecimal-digits 8 (a / 2 ^ 32) (omega arith) (omega arith) in
    (
      _,
      _,
      refl,
      front,
      (
        dash,
        _,
        refl,
        refl,
        (
          _,
          _,
          refl,
          second,
          (
            codes "-4",
            _,
            refl,
            refl,
            (
              _,
              _,
              refl,
              middle,
              (dash, _, refl, refl, (_, _, refl, back, (dash, _, refl, refl, tail))),
            ),
          ),
        ),
      ),
    )

pub uuid-Draws : Draws uuid_shape uuid
unfolding Draws
uuid-Draws s = uuid_of-Matches (next_u64 s).0 (next_u64 (next_u64 s).1).0 (next_u64-lt s)
