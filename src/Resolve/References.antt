-- ===== src/Resolve/References.antt =====
-- crates/proef-core/src/resolve.rs: the first reference of a text, said without the scan.
use proef.Base.{
  ℕ, zero, suc, ◌≡◌, ◌≢◌, refl, sym, ap, subst, ◌∙◌, Option, none, some, [], ◌∷◌, ◌++◌, All, arith,
  Option-cases, inl, inr, cons-injective,
}
use proef.Base.Texts.{Text, codes, strip_prefix, split_once_char}
use proef.Base.Finding.{strip_prefix-eq-some}
use proef.Resolve.{Reference, behind, close, first_from, first_reference}
use proef.Resolve.Scanning.{Once, split_once_char-Once}

-- The first reference stands at the front, or behind an escape `$${`, or behind a character that begins
-- neither.
pub data IsFirst : Text → Reference → Type 0 where
  here :
      {t name after : Text}
      → t ≡ codes "${" ++ (name ++ 125 ∷ after)
      → All (λ x. x ≢ 125) name
      → IsFirst t ([], (name, after))
  escaped :
      {c d e : ℕ} {t before : Text} {rest : Text × Text}
      → c ∷ d ∷ e ∷ [] ≡ codes "$${"
      → IsFirst t (before, rest)
      → IsFirst (c ∷ d ∷ e ∷ t) (c ∷ d ∷ e ∷ before, rest)
  passed :
      {c : ℕ} {t before : Text} {rest : Text × Text}
      → strip_prefix (codes "$${") (c ∷ t) ≡ none
      → strip_prefix (codes "${") (c ∷ t) ≡ none
      → IsFirst t (before, rest)
      → IsFirst (c ∷ t) (c ∷ before, rest)

abbrev pub NoReference : Text → Type 0
NoReference t = (r : Reference) → ¬ IsFirst t r

-- The reference when so many characters of an escape are still to be skipped.
abbrev Skips : ℕ → Text → Reference → Type 0
Skips zero t r = IsFirst t r
Skips (suc k) [] r = ⊥
Skips (suc k) (c ∷ t) ([], rest) = ⊥
Skips (suc k) (c ∷ t) (d ∷ before, rest) = (d ≡ c) × Skips k t (before, rest)

abbrev Firsts : ℕ → Text → Option Reference → Type 0
Firsts k t none = Unit
Firsts k t (some r) = Skips k t r

Firsts-skip :
    (k c : ℕ) (t : Text) (o : Option Reference) → Firsts k t o → Firsts (suc k) (c ∷ t) (behind c o)
Firsts-skip k c t none h = tt
Firsts-skip k c t (some (before, rest)) h = (refl, h)

Firsts-passed :
    (c : ℕ) (t : Text) (o : Option Reference)
    → strip_prefix (codes "$${") (c ∷ t) ≡ none
    → strip_prefix (codes "${") (c ∷ t) ≡ none
    → Firsts zero t o
    → Firsts zero (c ∷ t) (behind c o)
Firsts-passed c t none e f h = tt
Firsts-passed c t (some (before, rest)) e f h = passed e f h

Skips-escaped :
    (c : ℕ) (t r before : Text) (rest : Text × Text)
    → c ∷ t ≡ codes "$${" ++ r
    → Skips 2 t (before, rest)
    → IsFirst (c ∷ t) (c ∷ before, rest)
Skips-escaped c [] r before rest e h = absurd h
Skips-escaped c (d ∷ []) r [] rest e h = absurd h
Skips-escaped c (d ∷ []) r (x ∷ before) rest e h = absurd h.1
Skips-escaped c (d ∷ b ∷ t) r [] rest e h = absurd h
Skips-escaped c (d ∷ b ∷ t) r (x ∷ []) rest e h = absurd h.1
Skips-escaped c (d ∷ b ∷ t) r (x ∷ y ∷ before) rest e (p, (q, h)) =
    let one = cons-injective e in
    let two = cons-injective one.1 in
    let three = cons-injective two.1 in
    rw (p, q) (escaped (λ i. one.0 i ∷ two.0 i ∷ three.0 i ∷ []) h)

Firsts-escaped :
    (c : ℕ) (t r : Text) (o : Option Reference)
    → c ∷ t ≡ codes "$${" ++ r
    → Firsts 2 t o
    → Firsts zero (c ∷ t) (behind c o)
Firsts-escaped c t r none e h = tt
Firsts-escaped c t r (some (before, rest)) e h = Skips-escaped c t r before rest e h

Firsts-close :
    (t rest : Text) (o : Option (Text × Text))
    → t ≡ codes "${" ++ rest
    → Once 125 rest o
    → Firsts zero t (close o)
Firsts-close t rest none e h = tt
Firsts-close t rest (some (name, after)) e (same, free) =
    here (e ∙ ap (λ u. codes "${" ++ u) same) free

first_from-Firsts : (k : ℕ) (t : Text) → Firsts k t (first_from k t)
unfolding first_from
first_from-Firsts k [] = tt
first_from-Firsts (suc k) (c ∷ t) = Firsts-skip k c t (first_from k t) (first_from-Firsts k t)
first_from-Firsts zero (c ∷ t) = elim (Option-cases (strip_prefix (codes "$${") (c ∷ t))) [
  | inr (r, e) ↦
      rw (first_from, e)
        (Firsts-escaped c t r (first_from 2 t) (strip_prefix-eq-some (codes "$${") (c ∷ t) e)
          (first_from-Firsts 2 t))
  | inl e ↦ elim (Option-cases (strip_prefix (codes "${") (c ∷ t))) [
    | inr (after, f) ↦
        rw (first_from, e, f)
          (Firsts-close (c ∷ t) after (split_once_char 125 after)
            (strip_prefix-eq-some (codes "${") (c ∷ t) f) (split_once_char-Once 125 after))
    | inl f ↦
        rw (first_from, e, f) (Firsts-passed c t (first_from zero t) e f (first_from-Firsts zero t))
  ]
]

split_once_char-free :
    (c : ℕ) (s r : Text) → All (λ x. x ≢ c) s → split_once_char c (s ++ c ∷ r) ≡ some (s, r)
unfolding split_once_char
split_once_char-free c [] r h = ground arith
split_once_char-free c (x ∷ s) r h = ground (arith, split_once_char-free c s r h.1)

-- The scan finds the first reference.
pub IsFirst-first_reference : {t : Text} {r : Reference} → IsFirst t r → first_reference t ≡ some r
unfolding first_reference first_from strip_prefix
IsFirst-first_reference (here {name = name} {after = after} e free) =
    ap (first_from zero) e ∙ ap close (split_once_char-free 125 name after free)
IsFirst-first_reference (escaped {t = t} {before = before} {rest = rest} e h) =
    ap (λ (l : Text). first_from zero (l ++ t)) e
    ∙ ap (λ o. behind 36 (behind 36 (behind 123 o))) (IsFirst-first_reference h)
    ∙ ap (λ (l : Text). some (l ++ before, rest)) (sym e)
IsFirst-first_reference (passed {c = c} {t = t} e f h) =
    rw (first_from, e, f) (ap (behind c) (IsFirst-first_reference h))

pub first_reference-IsFirst : (t : Text) (r : Reference) → first_reference t ≡ some r → IsFirst t r
unfolding first_reference
first_reference-IsFirst t r h = subst (Firsts zero t) h (first_from-Firsts zero t)

pub first_reference-none : (t : Text) → first_reference t ≡ none → NoReference t
first_reference-none t h r f = let g = IsFirst-first_reference f in absurd (ground arith)
