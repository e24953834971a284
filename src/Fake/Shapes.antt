-- ===== src/Fake/Shapes.antt =====
-- crates/proef-core/src/fake.rs: the forms that the generators promise.
use proef.Base.{ℕ, ◌<◌, ◌≤◌, ◌≡◌, List, [], ◌∷◌, ◌++◌, length, All, Any}
use proef.Base.Texts.{Text, codes}
use proef.Base.Digits.{IsDigit}
use proef.Base.Maps.{Map}
use proef.Fake.{first_names, last_names, cities, streets, words, to_lowercase, space, dash}
use mathlib.Core.List.{map}

-- A part of a generated text.
pub data Piece : Type 0 where
  literal : Text → Piece
  one_of : List Text → Piece
  -- So many digits of a radix.
  digits : ℕ → ℕ → Piece
  -- At most so many decimal digits, and one at least.
  up_to : ℕ → Piece
  capital : Piece

abbrev pub Is : Piece → Text → Type 0
Is (literal t) a = a ≡ t
Is (one_of ts) a = Any (λ t. a ≡ t) ts
Is (digits radix n) a = (length a ≡ n) × All (IsDigit radix) a
Is (up_to n) a = (0 < length a) × ((length a ≤ n) × All (IsDigit 10) a)
Is capital a = (c : ℕ) × (65 ≤ c) × (c ≤ 90) × (a ≡ c ∷ [])

-- The text is made of the pieces, in order.
abbrev pub Matches : List Piece → Text → Type 0
Matches [] t = t ≡ []
Matches (p ∷ []) t = Is p t
Matches (p ∷ q ∷ ps) t = (a : Text) × (b : Text) × (t ≡ a ++ b) × Is p a × Matches (q ∷ ps) b

abbrev lowercase : List Text → List Text
lowercase ts = map to_lowercase ts

-- What each generator promises.
abbrev pub shapes : Map (List Piece)
shapes =
    (codes "firstName", one_of first_names ∷ [])
    ∷ (codes "lastName", one_of last_names ∷ [])
    ∷ (codes "name", one_of first_names ∷ literal space ∷ one_of last_names ∷ [])
    ∷ (codes "fullName", one_of first_names ∷ literal space ∷ one_of last_names ∷ [])
    ∷ (
      codes "email",
      one_of (lowercase first_names)
          ∷ literal (codes ".")
          ∷ one_of (lowercase last_names)
          ∷ literal (codes "@example.com")
          ∷ [],
    )
    ∷ (codes "username", one_of (lowercase first_names) ∷ up_to 3 ∷ [])
    ∷ (codes "phoneNL", literal (codes "06") ∷ digits 10 8 ∷ [])
    ∷ (codes "postCode", digits 10 4 ∷ literal space ∷ capital ∷ capital ∷ [])
    ∷ (codes "city", one_of cities ∷ [])
    ∷ (codes "street", one_of streets ∷ literal space ∷ up_to 3 ∷ [])
    ∷ (codes "int", up_to 4 ∷ [])
    ∷ (codes "number", up_to 4 ∷ [])
    ∷ (codes "digits4", digits 10 4 ∷ [])
    ∷ (codes "digits8", digits 10 8 ∷ [])
    ∷ (codes "bool", one_of (codes "true" ∷ codes "false" ∷ []) ∷ [])
    ∷ (codes "word", one_of words ∷ [])
    ∷ (
      codes "uuid",
      digits 16 8
          ∷ literal dash
          ∷ digits 16 4
          ∷ literal (codes "-4")
          ∷ digits 16 3
          ∷ literal dash
          ∷ digits 16 4
          ∷ literal dash
          ∷ digits 16 12
          ∷ [],
    )
    ∷ []
