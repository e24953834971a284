-- ===== src/Artifact/Sizes.antt =====
-- crates/proef-core/src/emit.rs: how long the name of an artifact is.
use proef.Base.{
  ℕ, zero, suc, ◌+◌, ◌-◌, ◌/◌, ◌%◌, ◌≤◌, ◌<◌, ◌≡◌, [], ◌∷◌, ◌++◌, ltb, leb, length, Bool-cases, inl,
  inr, arith,
}
use proef.Base.Texts.{Text, char_len, byte_len}
use proef.Base.Printing.{bytes, digit, digits_from, zeros, padded, hexadecimal}
use proef.Fake.{fnv1a}
use proef.Artifact.{Casing, max_slug_bytes, head_bytes, tag, cap_slug, full_slug, artifact_slug}

byte_len-append : (s t : Text) → byte_len (s ++ t) ≡ byte_len s + byte_len t
unfolding byte_len
byte_len-append [] t = omega arith
byte_len-append (c ∷ s) t = omega (arith, byte_len-append s t)

byte_len-head_bytes : (n : ℕ) (t : Text) → byte_len (head_bytes n t) ≤ n
unfolding byte_len head_bytes
byte_len-head_bytes n [] = omega arith
byte_len-head_bytes n (c ∷ t) = ground (arith, byte_len-head_bytes (n - char_len c) t)

digit_small : (d : ℕ) → d < 16 → char_len (digit d) ≡ 1
unfolding char_len digit
digit_small d h = ground arith

byte_len-digits_from :
    (fuel n : ℕ) (after : Text) → byte_len (digits_from fuel 16 n after) ≤ fuel + byte_len after
unfolding byte_len digits_from
byte_len-digits_from zero n after = omega arith
byte_len-digits_from (suc fuel) n after = elim (Bool-cases (ltb n 16)) [
  | inl e ↦ rw e (omega (arith, digit_small n (ground arith)))
  | inr e ↦
      let one = digit_small (n % 16) (omega arith) in
      rw e (omega (arith, byte_len-digits_from fuel (n / 16) (digit (n % 16) ∷ after), one))
]

byte_len-zeros : (n : ℕ) (t : Text) → byte_len (zeros n t) ≡ n + byte_len t
unfolding byte_len char_len
byte_len-zeros zero t = omega arith
byte_len-zeros (suc n) t = ground (arith, byte_len-zeros n t)

byte_len-hexadecimal : (n : ℕ) → byte_len (hexadecimal 16 n) ≤ 36
unfolding hexadecimal padded byte_len
byte_len-hexadecimal n = omega (
  arith,
  byte_len-zeros (16 - length (digits_from 20 16 n [])) (digits_from 20 16 n []),
  byte_len-digits_from 20 n [],
)

byte_len-tag : (slug : Text) → byte_len (tag slug) ≤ 37
unfolding byte_len tag char_len
byte_len-tag slug = omega (arith, byte_len-hexadecimal (fnv1a (bytes slug)))

byte_len-cap_slug : (slug : Text) → byte_len (cap_slug slug) ≤ 120
unfolding cap_slug
byte_len-cap_slug slug = elim (Bool-cases (leb (byte_len slug) max_slug_bytes)) [
  | inl e ↦ rw e (ground arith)
  | inr e ↦ rw e (
      omega (
        arith,
        byte_len-append (head_bytes (max_slug_bytes - byte_len (tag slug)) slug) (tag slug),
        byte_len-head_bytes (max_slug_bytes - byte_len (tag slug)) slug,
        byte_len-tag slug,
      ))
]

-- The name of an artifact has at most 120 bytes, whatever the path and the scenario.
pub byte_len-artifact_slug :
    (casing : Casing) (base scenario : Text) → byte_len (artifact_slug casing base scenario) ≤ 120
unfolding artifact_slug
byte_len-artifact_slug casing base scenario = byte_len-cap_slug (full_slug casing base scenario)
