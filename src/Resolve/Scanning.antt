-- ===== src/Resolve/Scanning.antt =====
-- crates/proef-core/src/resolve.rs: what `first_reference` finds.
use proef.Base.{
  ℕ, zero, suc, ◌≡◌, ◌≢◌, refl, ap, Option, none, some, [], ◌∷◌, ◌++◌, All, ◌==◌, ==_iff, arith,
  Bool-cases, Option-cases, inl, inr,
}
use mathlib.Core.Option
use proef.Base.Texts.{Text, codes, strip_prefix, split_once_char}
use proef.Base.Finding.{strip_prefix-eq-some}
use proef.Resolve.{Reference, behind, close, first_from, first_reference}

-- The first character splits the text.
abbrev pub Once : ℕ → Text → Option (Text × Text) → Type 0
Once c t none = Unit
Once c t (some (name, after)) = (t ≡ name ++ c ∷ after) × All (λ x. x ≢ c) name

Once-cons :
    (c x : ℕ) (t : Text) (o : Option (Text × Text))
    → x ≢ c
    → Once c t o
    → Once c (x ∷ t) (Option.map (λ (r : Text × Text). (x ∷ r.0, r.1)) o)
Once-cons c x t none n h = tt
Once-cons c x t (some (name, after)) n (same, free) = (ap (λ l. x ∷ l) same, (n, free))

pub split_once_char-Once : (c : ℕ) (t : Text) → Once c t (split_once_char c t)
unfolding split_once_char
split_once_char-Once c [] = tt
split_once_char-Once c (x ∷ t) = elim (Bool-cases (x == c)) [
  | inl e ↦ rw (split_once_char, e) (ap (λ y. y ∷ t) ((==_iff x c).0 e), tt)
  | inr e ↦
      rw (split_once_char, e)
        (Once-cons c x t (split_once_char c t) (λ h. ground (arith, ==_iff x c))
          (split_once_char-Once c t))
]

-- `}` is 125.
abbrev pub Splits : Text → Option Reference → Type 0
Splits t none = Unit
Splits t (some (before, (name, after))) =
    (t ≡ before ++ codes "${" ++ name ++ 125 ∷ after) × All (λ x. x ≢ 125) name

Splits-behind : (c : ℕ) (t : Text) (o : Option Reference) → Splits t o → Splits (c ∷ t) (behind c o)
Splits-behind c t none h = tt
Splits-behind c t (some (before, (name, after))) (same, free) = (ap (λ l. c ∷ l) same, free)

Splits-close :
    (t rest : Text) (o : Option (Text × Text))
    → t ≡ codes "${" ++ rest
    → Once 125 rest o
    → Splits t (close o)
Splits-close t rest none e h = tt
Splits-close t rest (some (name, after)) e (same, free) = (rw (e, same) refl, free)

first_from-Splits : (k : ℕ) (t : Text) → Splits t (first_from k t)
unfolding first_from
first_from-Splits k [] = tt
first_from-Splits (suc k) (c ∷ t) = Splits-behind c t (first_from k t) (first_from-Splits k t)
first_from-Splits zero (c ∷ t) = elim (Option-cases (strip_prefix (codes "$${") (c ∷ t))) [
  | inr (r, e) ↦ rw (first_from, e) (Splits-behind c t (first_from 2 t) (first_from-Splits 2 t))
  | inl e ↦ elim (Option-cases (strip_prefix (codes "${") (c ∷ t))) [
    | inr (after, f) ↦
        rw (first_from, e, f)
          (Splits-close (c ∷ t) after (split_once_char 125 after)
            (strip_prefix-eq-some (codes "${") (c ∷ t) f) (split_once_char-Once 125 after))
    | inl f ↦
        rw (first_from, e, f) (Splits-behind c t (first_from zero t) (first_from-Splits zero t))
  ]
]

-- What `first_reference` finds is a reference: the text is what stands before it, `${`, a name without
-- `}`, `}`, and what stands after it.
pub first_reference-Splits : (t : Text) → Splits t (first_reference t)
unfolding first_reference
first_reference-Splits t = first_from-Splits zero t
