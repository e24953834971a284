-- ===== src/Fingerprint/Framing.antt =====
-- crates/proef-core/src/fingerprint.rs: the boundaries of the parts in the buffer of `of`.
use proef.Base.{
  ℕ, zero, suc, ◌/◌, ◌%◌, ◌^◌, ◌<◌, ◌≡◌, refl, ap₂, List, [], ◌∷◌, ◌++◌, cons-injective, length,
  All, arith,
}
use proef.Fingerprint.{Bytes, le_bytes, frame}

-- The number has at most so many bytes.
abbrev FitsIn : ℕ → ℕ → Type 0
FitsIn zero n = n ≡ 0
FitsIn (suc k) n = FitsIn k (n / 256)

le_bytes-injective :
    (k n m : ℕ) (xs ys : Bytes)
    → FitsIn k n
    → FitsIn k m
    → le_bytes k n ++ xs ≡ le_bytes k m ++ ys
    → (n ≡ m) × (xs ≡ ys)
unfolding le_bytes
le_bytes-injective zero n m xs ys fn fm h = (omega arith, h)
le_bytes-injective (suc k) n m xs ys fn fm h =
    let (low, rest) = cons-injective h in
    let (high, tails) = le_bytes-injective k (n / 256) (m / 256) xs ys fn fm rest in
    (omega arith, tails)

fits_eight : (n : ℕ) → n < 18446744073709551616 → FitsIn 8 n
fits_eight n h = omega arith

below : (n : ℕ) → n % 2 ^ 64 < 18446744073709551616
below n = omega arith

append-injective :
    (p q xs ys : Bytes) → length p ≡ length q → p ++ xs ≡ q ++ ys → (p ≡ q) × (xs ≡ ys)
append-injective [] [] xs ys l h = (refl, h)
append-injective [] (b ∷ q) xs ys l h = absurd (omega arith)
append-injective (a ∷ p) [] xs ys l h = absurd (omega arith)
append-injective (a ∷ p) (b ∷ q) xs ys l h =
    let (same, rest) = cons-injective h in
    let (bodies, tails) = append-injective p q xs ys (omega arith) rest in
    (ap₂ (λ c cs. c ∷ cs) same bodies, tails)

abbrev pub IsShort : Bytes → Type 0
IsShort part = length part < 2 ^ 64

-- Lists of parts, each shorter than 2 ^ 64 bytes, that give the same buffer are the same lists.
pub frame-injective :
    (ps qs : List Bytes) → All IsShort ps → All IsShort qs → frame ps ≡ frame qs → ps ≡ qs
unfolding frame le_bytes
frame-injective [] [] sp sq h = refl
frame-injective [] (q ∷ qs) sp sq h = absurd (ground arith)
frame-injective (p ∷ ps) [] sp sq h = absurd (ground arith)
frame-injective (p ∷ ps) (q ∷ qs) (sp, sps) (sq, sqs) h =
    let (lengths, rest) =
      le_bytes-injective 8 (length p % 2 ^ 64) (length q % 2 ^ 64) (p ++ frame ps) (q ++ frame qs)
        (fits_eight _ (below (length p))) (fits_eight _ (below (length q))) h in
    let (bodies, tails) = append-injective p q (frame ps) (frame qs) (omega arith) rest in
    ap₂ (λ x xs. x ∷ xs) bodies (frame-injective ps qs sps sqs tails)
