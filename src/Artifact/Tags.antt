-- ===== src/Artifact/Tags.antt =====
-- crates/proef-core/src/emit.rs: the tag of a name that is cut, and which names can be the same.
use proef.Base.{
  ℕ, zero, suc, ◌+◌, ◌-◌, ◌*◌, ◌^◌, List, if◌then◌else◌, ◌/◌, ◌%◌, ◌<◌, ◌≡◌, ◌≢◌, ◌⊎◌, inl, inr,
  refl, sym, ap, subst, ◌∙◌, [], ◌∷◌, ◌++◌, ltb, leb, length, All, cons-injective, Bool-cases,
  arith,
}
use proef.Base.Texts.{Text, byte_len}
use proef.Base.Printing.{bytes, digit, digits_from, zeros, padded, hexadecimal}
use Prim.Native.Nat.{bit_xor}
use proef.Fingerprint.{fnv_prime, fnv1a_offset_basis, fnv1a_with}
use proef.Fake.{fnv1a}
use proef.Artifact.{
  Casing, dash, max_slug_bytes, head_bytes, tag, cap_slug, slugify, base_slug, full_slug,
  artifact_slug,
}
use proef.Artifact.Slugs.{LowersPlainly, full_slug-injective}

abbrev IsDashless : Text → Type 0
IsDashless t = All (λ c. c ≢ 45) t

digit-ne_dash : (d : ℕ) → digit d ≢ 45
unfolding digit
digit-ne_dash d h = ground arith

digits_from-IsDashless :
    (fuel n : ℕ) (after : Text) → IsDashless after → IsDashless (digits_from fuel 16 n after)
unfolding digits_from
digits_from-IsDashless zero n after h = h
digits_from-IsDashless (suc fuel) n after h = elim (Bool-cases (ltb n 16)) [
  | inl e ↦ rw e (digit-ne_dash n, h)
  | inr e ↦
      rw e
        (digits_from-IsDashless fuel (n / 16) (digit (n % 16) ∷ after) (digit-ne_dash (n % 16), h))
]

zeros-IsDashless : (n : ℕ) (t : Text) → IsDashless t → IsDashless (zeros n t)
zeros-IsDashless zero t h = h
zeros-IsDashless (suc n) t h = ((λ e. ground arith), zeros-IsDashless n t h)

hexadecimal-IsDashless : (n : ℕ) → IsDashless (hexadecimal 16 n)
unfolding hexadecimal padded
hexadecimal-IsDashless n =
    zeros-IsDashless (16 - length (digits_from 20 16 n [])) (digits_from 20 16 n [])
      (digits_from-IsDashless 20 n [] tt)

dash-within : (s t : Text) → IsDashless (s ++ (dash ∷ t)) → ⊥
dash-within [] t h = h.0 refl
dash-within (c ∷ s) t h = dash-within s t h.1

-- What stands behind the last dash.
behind_dash :
    (s t u v : Text) → IsDashless u → IsDashless v → s ++ (dash ∷ u) ≡ t ++ (dash ∷ v) → u ≡ v
behind_dash [] [] u v hu hv e = (cons-injective e).1
behind_dash [] (c ∷ t) u v hu hv e =
    absurd (dash-within t v (subst IsDashless (cons-injective e).1 hu))
behind_dash (c ∷ s) [] u v hu hv e =
    absurd (dash-within s u (subst IsDashless (sym (cons-injective e).1) hv))
behind_dash (c ∷ s) (d ∷ t) u v hu hv e = behind_dash s t u v hu hv (cons-injective e).1

-- The number of a text of digits.
abbrev undigit : ℕ → ℕ
undigit c = if ltb c 58 then c - 48 else c - 87

abbrev read : ℕ → Text → ℕ
read acc [] = acc
read acc (c ∷ t) = read (acc * 16 + undigit c) t

abbrev places : ℕ → ℕ
places zero = 1
places (suc n) = 16 * places n

undigit-digit : (d : ℕ) → d < 16 → undigit (digit d) ≡ d
unfolding digit
undigit-digit d h = ground arith

read-digits_from :
    (fuel n : ℕ) (after : Text)
    → n < places fuel
    → read 0 (digits_from fuel 16 n after) ≡ read n after
unfolding digits_from
read-digits_from zero n after h = ap (λ m. read m after) (omega arith)
read-digits_from (suc fuel) n after h = elim (Bool-cases (ltb n 16)) [
  | inl e ↦
      let back : 0 + undigit (digit n) ≡ n = omega (arith, undigit-digit n (ground arith)) in
      rw e (ap (λ m. read m after) back)
  | inr e ↦
      let back : n / 16 * 16 + undigit (digit (n % 16)) ≡ n =
        omega (arith, undigit-digit (n % 16) (omega arith)) in
      rw e (
        read-digits_from fuel (n / 16) (digit (n % 16) ∷ after) (omega arith)
        ∙ ap (λ m. read m after) back)
]

read-zeros : (n : ℕ) (t : Text) → read 0 (zeros n t) ≡ read 0 t
read-zeros zero t = refl
read-zeros (suc n) t = read-zeros n t

read-hexadecimal : (n : ℕ) → n < 2 ^ 64 → read 0 (hexadecimal 16 n) ≡ n
unfolding hexadecimal padded
read-hexadecimal n h =
    read-zeros (16 - length (digits_from 20 16 n [])) (digits_from 20 16 n [])
    ∙ read-digits_from 20 n [] (omega arith)

fnv1a_with-lt : (bs : List ℕ) (hash : ℕ) → hash < 2 ^ 64 → fnv1a_with bs hash < 2 ^ 64
unfolding fnv1a_with
fnv1a_with-lt [] hash h = h
fnv1a_with-lt (b ∷ bs) hash h = fnv1a_with-lt bs (bit_xor hash b * fnv_prime % 2 ^ 64) (omega arith)

fnv1a-lt : (bs : List ℕ) → fnv1a bs < 2 ^ 64
unfolding fnv1a
fnv1a-lt bs = fnv1a_with-lt bs fnv1a_offset_basis (omega arith)

-- Names that end in their tags are the same only if the hashes are.
hashes-same : (s t a b : Text) → s ++ tag a ≡ t ++ tag b → fnv1a (bytes a) ≡ fnv1a (bytes b)
unfolding tag
hashes-same s t a b e =
    let x = fnv1a (bytes a) in
    let y = fnv1a (bytes b) in
    sym (read-hexadecimal x (fnv1a-lt (bytes a)))
    ∙ ap (read 0) (
        behind_dash s t (hexadecimal 16 x) (hexadecimal 16 y) (hexadecimal-IsDashless x)
          (hexadecimal-IsDashless y) e)
    ∙ read-hexadecimal y (fnv1a-lt (bytes b))

-- A name is cut if it has more than 120 bytes; then it ends in its tag.
abbrev pub IsCutTo : Text → Text → Type 0
IsCutTo slug name = (120 < byte_len slug) × ((head : Text) × (name ≡ head ++ tag slug))

cap_slug-cases : (slug : Text) → (cap_slug slug ≡ slug) ⊎ IsCutTo slug (cap_slug slug)
unfolding cap_slug
cap_slug-cases slug = elim (Bool-cases (leb (byte_len slug) max_slug_bytes)) [
  | inl e ↦ rw e (inl refl)
  | inr e ↦
      rw e (inr (ground arith, (head_bytes (max_slug_bytes - byte_len (tag slug)) slug, refl)))
]

-- Two different slugs that get one name: both are cut and have the same hash, or one is cut and the
-- other is as it stands what that one is cut to.
abbrev pub Clash : Text → Text → Type 0
Clash a b =
    ((120 < byte_len a) × ((120 < byte_len b) × (fnv1a (bytes a) ≡ fnv1a (bytes b))))
    ⊎ (IsCutTo a b ⊎ IsCutTo b a)

cap_slug-Clash : (a b : Text) → cap_slug a ≡ cap_slug b → (a ≡ b) ⊎ Clash a b
cap_slug-Clash a b e = elim (cap_slug-cases a) [
  | inl whole_a ↦ elim (cap_slug-cases b) [
    | inl whole_b ↦ inl (sym whole_a ∙ e ∙ whole_b)
    | inr (long, (head, cut)) ↦ inr (inr (inr (long, (head, sym whole_a ∙ e ∙ cut))))
  ]
  | inr (long, (head, cut)) ↦ elim (cap_slug-cases b) [
    | inl whole_b ↦ inr (inr (inl (long, (head, sym whole_b ∙ sym e ∙ cut))))
    | inr (long_b, (head_b, cut_b)) ↦
        inr (inl (long, (long_b, hashes-same head head_b a b (sym cut ∙ e ∙ cut_b))))
  ]
]

-- If a lower-case form is never empty and has no dash, then two artifacts have the same name only when
-- their feature parts have the same slug (`feature` for an empty one) and their scenarios have the same
-- slug, or when both whole slugs have more than 120 bytes and one FNV-1a hash, or when one has and the
-- other is a text that ends in a dash and the hash of that one.
pub artifact_slug-injective :
    (casing : Casing) (b c s t : Text)
    → LowersPlainly casing
    → artifact_slug casing b s ≡ artifact_slug casing c t
    → ((base_slug casing b ≡ base_slug casing c) × (slugify casing s ≡ slugify casing t))
      ⊎ Clash (full_slug casing b s) (full_slug casing c t)
unfolding artifact_slug
artifact_slug-injective casing b c s t lowers e =
    elim (cap_slug-Clash (full_slug casing b s) (full_slug casing c t) e) [
      | inl same ↦ inl (full_slug-injective casing b c s t lowers same)
      | inr clash ↦ inr clash
    ]
