-- ===== src/Base/Finding.antt =====
-- What `str::strip_prefix` and `str::find` find, stated without a search.
use proef.Base.Texts.{Text, strip_prefix, split_at_find}
use mathlib.Core.Path.{◌≡◌, refl, ap}
use mathlib.Core.Logic.{◌↔◌, inl, inr}
use mathlib.Core.Option
use mathlib.Core.Option.{Option, none, some}
use mathlib.Core.List.{[], ◌∷◌, ◌++◌, append-nil}
use Prim.Native.Nat.{ℕ}
use native.Mathlib.Omega.{arith}
use proef.Base.Tests.{Option-cases}

-- `s` begins with `p`.
abbrev pub Starts : Text → Text → Type 0
Starts p s = (r : Text) × (s ≡ p ++ r)

pub strip_prefix-append : (p r : Text) → strip_prefix p (p ++ r) ≡ some r
unfolding strip_prefix
strip_prefix-append [] r = refl
strip_prefix-append (a ∷ p) r = ground (arith, strip_prefix-append p r)

pub strip_prefix-eq-some : (p s : Text) {r : Text} → strip_prefix p s ≡ some r → s ≡ p ++ r
unfolding strip_prefix
strip_prefix-eq-some [] s h = cc
strip_prefix-eq-some (a ∷ p) [] h = cc
strip_prefix-eq-some (a ∷ p) (b ∷ s) {r} h = ground (arith, strip_prefix-eq-some p s {r = r})

pub strip_prefix_iff : (p s r : Text) → (strip_prefix p s ≡ some r) ↔ (s ≡ p ++ r)
strip_prefix_iff p s r = (strip_prefix-eq-some p s, λ e. rw e (strip_prefix-append p r))

-- Within `v ++ r`, `needle` begins at no place inside `v`.
abbrev pub NoneWithin : Text → Text → Text → Type 0
NoneWithin needle [] r = Unit
NoneWithin needle (c ∷ v) r = ¬ Starts needle (c ∷ (v ++ r)) × NoneWithin needle v r

-- `v` is what stands in `s` before the leftmost occurrence of `needle`, and `r` the rest.
abbrev pub Leftmost : Text → Text → Text → Text → Type 0
Leftmost needle s v r = (s ≡ v ++ r) × Starts needle r × NoneWithin needle v r

not-Starts : (needle s : Text) → strip_prefix needle s ≡ none → ¬ Starts needle s
not-Starts needle s h (r, e) = cc (h, (strip_prefix_iff needle s r).1 e)

strip_prefix-eq-none : (needle s : Text) → ¬ Starts needle s → strip_prefix needle s ≡ none
strip_prefix-eq-none needle s h = elim (Option-cases (strip_prefix needle s)) [
  | inl e ↦ e
  | inr (r, e) ↦ absurd (h (r, (strip_prefix_iff needle s r).0 e))
]

-- What the search says of a text: where the needle first stands, or that it stands nowhere.
abbrev Searched : Text → Text → Option (Text × Text) → Type 0
Searched needle s none = ¬ Starts needle [] × NoneWithin needle s []
Searched needle s (some (v, r)) = Leftmost needle s v r

Searched-cons :
    (needle s : Text) (c : ℕ) (o : Option (Text × Text))
    → ¬ Starts needle (c ∷ s)
    → Searched needle s o
    → Searched needle (c ∷ s) (Option.map (λ (r : Text × Text). (c ∷ r.0, r.1)) o)
Searched-cons needle s c none h k = (k.0, (rw append-nil h, k.1))
Searched-cons needle s c (some (v, r)) h (e, p, q) = (ap (λ t. c ∷ t) e, p, (rw e at h, q))

split_at_find-Searched : (needle s : Text) → Searched needle s (split_at_find needle s)
unfolding split_at_find
split_at_find-Searched needle [] = elim (Option-cases (strip_prefix needle [])) [
  | inl e ↦ rw (e, split_at_find) (not-Starts needle [] e, tt)
  | inr (r, e) ↦ rw (e, split_at_find) (refl, (r, (strip_prefix_iff needle [] r).0 e), tt)
]
split_at_find-Searched needle (c ∷ s) = elim (Option-cases (strip_prefix needle (c ∷ s))) [
  | inl e ↦
      rw (e, split_at_find)
        (Searched-cons needle s c (split_at_find needle s) (not-Starts needle (c ∷ s) e)
          (split_at_find-Searched needle s))
  | inr (r, e) ↦ rw (e, split_at_find) (refl, (r, (strip_prefix_iff needle (c ∷ s) r).0 e), tt)
]

split_at_find-append :
    (needle v r : Text)
    → Starts needle r
    → NoneWithin needle v r
    → split_at_find needle (v ++ r) ≡ some (v, r)
unfolding split_at_find
split_at_find-append needle [] [] (x, e) q =
    rw ((strip_prefix_iff needle [] x).1 e, split_at_find) refl
split_at_find-append needle [] (c ∷ r) (x, e) q =
    rw ((strip_prefix_iff needle (c ∷ r) x).1 e, split_at_find) refl
split_at_find-append needle (c ∷ v) r p (h, q) =
    rw (strip_prefix-eq-none needle (c ∷ (v ++ r)) h, split_at_find)
      (rw (split_at_find-append needle v r p q))

-- `find` with the slices at its result gives exactly the leftmost occurrence.
pub split_at_find_iff :
    (needle s v r : Text) → (split_at_find needle s ≡ some (v, r)) ↔ Leftmost needle s v r
split_at_find_iff needle s v r = (
  λ h. rw h at (split_at_find-Searched needle s),
  λ (e, p, q). rw e (split_at_find-append needle v r p q),
)
