-- ===== src/Fake.antt =====
-- crates/proef-core/src/fake.rs: the synthetic data of `${fake:*}`.
mod Printed
mod Drawn
pub mod Generated
pub mod Shapes
mod Tests
use Prim.Native.Nat.{bit_and, bit_or, bit_xor}
use proef.Base.{
  ℕ, zero, suc, ◌+◌, ◌*◌, ◌/◌, ◌%◌, ◌^◌, Bool, Option, List, [], ◌∷◌, ◌++◌, map, any, length, leb,
  ◌&&◌, ◌==◌, if◌then◌else◌,
}
use mathlib.Core.Option
use proef.Base.Texts.{Text, codes, text_eq}
use proef.Base.Maps.{Map, lookup}
use proef.Base.Words.{wrapping_add, wrapping_mul, rotate_left}
use proef.Base.Printing.{bytes, decimal, padded, hexadecimal}
use proef.Fingerprint.{fnv1a_with, fnv1a_offset_basis}

-- What draws from the generator: the state of `SplitMix64` is passed on.
abbrev pub Rng : Type 0 → Type 0
Rng A = ℕ → A × ℕ

infixl 5 ◌>>=◌ ◌>>◌
abbrev pub ◌>>=◌ : {A B : Type 0} → Rng A → (A → Rng B) → Rng B
◌>>=◌ m f state = let r = m state in f r.0 r.1

abbrev pub ◌>>◌ : {A B : Type 0} → Rng A → Rng B → Rng B
m >> k = m >>= λ _. k

abbrev pub done : {A : Type 0} → A → Rng A
done a state = (a, state)

-- `z ^ (z >> k)`
unfoldable pub shift_xor : ℕ → ℕ → ℕ
shift_xor k z = bit_xor z (z / 2 ^ k)

unfoldable pub mixed : ℕ → ℕ
unfolding shift_xor
mixed state =
    let z = wrapping_mul (shift_xor 30 state) 0xBF58476D1CE4E5B9 in
    let z' = wrapping_mul (shift_xor 27 z) 0x94D049BB133111EB in shift_xor 31 z'

unfoldable pub next_u64 : Rng ℕ
unfolding mixed
next_u64 state = let next = wrapping_add state 0x9E3779B97F4A7C15 in (mixed next, next)

unfoldable pub below : ℕ → Rng ℕ
unfolding next_u64
below n = do z ← next_u64; done (z % n)

-- `items[i]`, which is in bounds: what it is out of them does not matter.
abbrev pub item : List Text → ℕ → Text
item [] i = []
item (t ∷ items) zero = t
item (t ∷ items) (suc i) = item items i

unfoldable pub pick : List Text → Rng Text
unfolding below
pick items = do i ← below (length items); done (item items i)

unfoldable pub fnv1a : List ℕ → ℕ
unfolding fnv1a_with
fnv1a bs = fnv1a_with bs fnv1a_offset_basis

abbrev pub first_names : List Text
first_names =
    codes "Alice"
    ∷ codes "Bob"
    ∷ codes "Carol"
    ∷ codes "David"
    ∷ codes "Emma"
    ∷ codes "Finn"
    ∷ codes "Sofie"
    ∷ codes "Lars"
    ∷ codes "Noor"
    ∷ codes "Sem"
    ∷ []

abbrev pub last_names : List Text
last_names =
    codes "Jansen"
    ∷ codes "Vries"
    ∷ codes "Dekker"
    ∷ codes "Visser"
    ∷ codes "Smit"
    ∷ codes "Meijer"
    ∷ codes "Smith"
    ∷ codes "Brown"
    ∷ codes "Jones"
    ∷ codes "Mulder"
    ∷ []

abbrev pub cities : List Text
cities =
    codes "Amsterdam"
    ∷ codes "Rotterdam"
    ∷ codes "Utrecht"
    ∷ codes "Den Haag"
    ∷ codes "Eindhoven"
    ∷ codes "Groningen"
    ∷ []

abbrev pub streets : List Text
streets =
    codes "Kerkstraat"
    ∷ codes "Schoolstraat"
    ∷ codes "Dorpsstraat"
    ∷ codes "Molenweg"
    ∷ codes "Hoofdstraat"
    ∷ codes "Stationsweg"
    ∷ []

abbrev pub words : List Text
words =
    codes "lorem"
    ∷ codes "ipsum"
    ∷ codes "dolor"
    ∷ codes "sit"
    ∷ codes "amet"
    ∷ codes "consectetur"
    ∷ codes "adipiscing"
    ∷ codes "elit"
    ∷ []

abbrev pub generators : List Text
generators =
    codes "firstName"
    ∷ codes "lastName"
    ∷ codes "name"
    ∷ codes "fullName"
    ∷ codes "email"
    ∷ codes "username"
    ∷ codes "phoneNL"
    ∷ codes "postCode"
    ∷ codes "city"
    ∷ codes "street"
    ∷ codes "int"
    ∷ codes "number"
    ∷ codes "digits4"
    ∷ codes "digits8"
    ∷ codes "bool"
    ∷ codes "word"
    ∷ codes "uuid"
    ∷ []

unfoldable pub is_known_generator : Text → Bool
unfolding text_eq
is_known_generator name = any (λ g. text_eq g name) generators

abbrev is_upper : ℕ → Bool
is_upper c = leb 65 c && leb c 90

-- `str::to_lowercase`, on the ASCII names of the tables.
abbrev pub to_lowercase : Text → Text
to_lowercase [] = []
to_lowercase (c ∷ t) = (if is_upper c then c + 32 else c) ∷ to_lowercase t

unfoldable pub upper_letter : Rng Text
unfolding below
upper_letter = do i ← below 26; done ((65 + i) ∷ [])

abbrev pub space : Text
space = codes " "

abbrev pub dash : Text
dash = codes "-"

abbrev pub full_name : Rng Text
full_name = do first ← pick first_names; last ← pick last_names; done (first ++ (space ++ last))

abbrev pub email : Rng Text
email = do
  first ← pick first_names
  last ← pick last_names
  done (to_lowercase first ++ (codes "." ++ (to_lowercase last ++ codes "@example.com")))

abbrev pub username : Rng Text
username = do first ← pick first_names; n ← below 1000; done (to_lowercase first ++ decimal n)

abbrev pub phone : Rng Text
phone = do n ← below 100000000; done (codes "06" ++ padded 8 (decimal n))

abbrev pub post_code : Rng Text
post_code = do
  n ← below 9000
  a ← upper_letter
  b ← upper_letter
  done (padded 4 (decimal (1000 + n)) ++ (space ++ (a ++ b)))

abbrev pub street : Rng Text
street = do s ← pick streets; n ← below 200; done (s ++ (space ++ decimal (1 + n)))

abbrev pub number : Rng Text
number = do n ← below 10000; done (decimal n)

abbrev pub digits4 : Rng Text
digits4 = do n ← below 10000; done (padded 4 (decimal n))

abbrev pub digits8 : Rng Text
digits8 = do n ← below 100000000; done (padded 8 (decimal n))

abbrev pub flag : Rng Text
flag = do z ← next_u64; done (if bit_and z 1 == 1 then codes "true" else codes "false")

abbrev pub uuid_of : ℕ → ℕ → Text
uuid_of a b =
    hexadecimal 8 (a / 2 ^ 32)
    ++ (dash
        ++ (hexadecimal 4 (bit_and (a / 2 ^ 16) 0xFFFF)
            ++ (codes "-4"
                ++ (hexadecimal 3 (bit_and a 0xFFF)
                    ++ (dash
                        ++ (hexadecimal 4 (bit_or 0x8000 (bit_and (b / 2 ^ 48) 0x3FFF))
                            ++ (dash ++ hexadecimal 12 (bit_and b 0xFFFFFFFFFFFF))))))))

abbrev pub uuid : Rng Text
uuid = do a ← next_u64; b ← next_u64; done (uuid_of a b)

-- The arms of the `match`, in order.
abbrev pub arms : Map (Rng Text)
arms =
    (codes "firstName", pick first_names)
    ∷ (codes "lastName", pick last_names)
    ∷ (codes "name", full_name)
    ∷ (codes "fullName", full_name)
    ∷ (codes "email", email)
    ∷ (codes "username", username)
    ∷ (codes "phoneNL", phone)
    ∷ (codes "postCode", post_code)
    ∷ (codes "city", pick cities)
    ∷ (codes "street", street)
    ∷ (codes "int", number)
    ∷ (codes "number", number)
    ∷ (codes "digits4", digits4)
    ∷ (codes "digits8", digits8)
    ∷ (codes "bool", flag)
    ∷ (codes "word", pick words)
    ∷ (codes "uuid", uuid)
    ∷ []

unfoldable pub seed_of : Text → ℕ → Text → ℕ
unfolding bytes fnv1a
seed_of run_id occurrence generator =
    bit_xor (bit_xor (fnv1a (bytes run_id)) (rotate_left (fnv1a (bytes generator)) 17))
      (wrapping_mul occurrence 0x9E3779B97F4A7C15)

unfoldable pub generate : Text → ℕ → Text → Option Text
unfolding lookup seed_of pick next_u64 below decimal padded hexadecimal upper_letter
generate run_id occurrence generator =
    Option.map (λ (draw : Rng Text). (draw (seed_of run_id occurrence generator)).0)
      (lookup generator arms)
