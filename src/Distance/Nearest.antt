-- ===== src/Distance/Nearest.antt =====
-- crates/proef-core/src/matcher.rs: `levenshtein` and `closest` beside edit scripts.
use mathlib.Core.Option
use mathlib.Core.List.{reverse-reverse}
use proef.Base.{
  ℕ, ◌≤◌, ◌<◌, ◌≡◌, refl, ap, false, Option, none, some, List, [], ◌∷◌, ◌++◌, reverse, length, All,
  All-append, arith, leb, Bool-cases, inl, inr,
}
use proef.Base.Texts.{Text}
use proef.Distance.{
  levenshtein, suggestion_distance, abs_diff, keep_nearer, min_by_distance, near, closest,
}
use proef.Distance.Edits.{Edits, edit_least, Edits-edit, Edits-length, Edits-reverse}
use proef.Distance.Rows.{levenshtein-eq-edit}

pub Edits-levenshtein : (a b : Text) → Edits a b (levenshtein a b)
Edits-levenshtein a b = rw (levenshtein-eq-edit a b) (
    rw (reverse-reverse a, reverse-reverse b) at
      (Edits-reverse (Edits-edit (reverse a) (reverse b))))

-- The rolling row computes the edit distance: some script of that many insertions, deletions and
-- replacements turns `a` into `b`, and no script is shorter.
pub levenshtein_least :
    (a b : Text) → Edits a b (levenshtein a b) × ((n : ℕ) → Edits a b n → levenshtein a b ≤ n)
levenshtein_least a b =
    (Edits-levenshtein a b, λ n e. rw (levenshtein-eq-edit a b) (edit_least (Edits-reverse e)))

levenshtein_far :
    (a b : Text)
    → leb (abs_diff (length b) (length a)) suggestion_distance ≡ false
    → suggestion_distance < levenshtein a b
levenshtein_far a b h = ground (arith, Edits-length (Edits-levenshtein a b))

-- `c` stands among the candidates, within the threshold, nearer than all before it and at least as
-- near as all behind it.
pub record IsFirstNearest (input : Text) (cs : List Text) (c : Text) : Type 0 where
  pub before : List Text
  pub behind : List Text
  pub split : cs ≡ before ++ c ∷ behind
  pub within : levenshtein input c ≤ suggestion_distance
  pub nearer : All (λ d. levenshtein input c < levenshtein input d) before
  pub as_near : All (λ d. levenshtein input c ≤ levenshtein input d) behind

abbrev pub Suggests : Text → List Text → Option Text → Type 0
Suggests input cs none = All (λ d. suggestion_distance < levenshtein input d) cs
Suggests input cs (some c) = IsFirstNearest input cs c

abbrev Measured : Text → List Text → Option (ℕ × Text) → Type 0
Measured input cs none = Suggests input cs none
Measured input cs (some (n, c)) = (n ≡ levenshtein input c) × IsFirstNearest input cs c

All-map {ℓ} :
    {A : Type ℓ} (P Q : A → Type 0) (xs : List A) → ((x : A) → P x → Q x) → All P xs → All Q xs
All-map P Q [] f h = tt
All-map P Q (x ∷ xs) f h = (f x h.0, All-map P Q xs f h.1)

module _ (input : Text) where
  IsFirstNearest-cons :
      (c d : Text) (cs : List Text)
      → levenshtein input d < levenshtein input c
      → IsFirstNearest input cs d
      → IsFirstNearest input (c ∷ cs) d
  IsFirstNearest-cons c d cs lt h = record {
    before = c ∷ h.before;
    behind = h.behind;
    split = ap (λ t. c ∷ t) h.split;
    within = h.within;
    nearer = (lt, h.nearer);
    as_near = h.as_near;
  }

  IsFirstNearest-All :
      (c : Text) (cs : List Text)
      → IsFirstNearest input cs c
      → All (λ d. levenshtein input c ≤ levenshtein input d) cs
  IsFirstNearest-All c cs h = rw h.split (
      All-append _ h.before (c ∷ h.behind) (All-map _ _ h.before (λ x p. omega arith) h.nearer)
        (omega arith, h.as_near))

  IsFirstNearest-head :
      (c : Text) (cs : List Text)
      → levenshtein input c ≤ suggestion_distance
      → All (λ d. levenshtein input c ≤ levenshtein input d) cs
      → IsFirstNearest input (c ∷ cs) c
  IsFirstNearest-head c cs h a = record {
    before = [];
    behind = cs;
    split = refl;
    within = h;
    nearer = tt;
    as_near = a;
  }

  Measured-skip :
      (c : Text) (cs : List Text) (o : Option (ℕ × Text))
      → suggestion_distance < levenshtein input c
      → Measured input cs o
      → Measured input (c ∷ cs) o
  Measured-skip c cs none far h = (far, h)
  Measured-skip c cs (some (n, d)) far (e, h) =
      (e, IsFirstNearest-cons c d cs (omega (arith, h.within)) h)

  Measured-take :
      (c : Text) (cs : List Text) (o : Option (ℕ × Text))
      → levenshtein input c ≤ suggestion_distance
      → Measured input cs o
      → Measured input (c ∷ cs) (keep_nearer (levenshtein input c, c) o)
  unfolding keep_nearer
  Measured-take c cs none close h =
      (refl, IsFirstNearest-head c cs close (All-map _ _ cs (λ x p. omega arith) h))
  Measured-take c cs (some (n, d)) close (e, h) = elim (Bool-cases (leb (levenshtein input c) n)) [
    | inl le ↦
        let order : levenshtein input c ≤ levenshtein input d = ground arith in
        rw le (
          refl,
          IsFirstNearest-head c cs close
              (All-map _ _ cs (λ x p. omega arith) (IsFirstNearest-All d cs h)),
        )
    | inr gt ↦
        let order : levenshtein input d < levenshtein input c = ground arith in
        rw gt (e, IsFirstNearest-cons c d cs order h)
  ]

  near-Measured : (cs : List Text) → Measured input cs (min_by_distance (near input cs))
  unfolding near min_by_distance
  near-Measured [] = tt
  near-Measured (c ∷ cs) =
      elim (Bool-cases (leb (abs_diff (length c) (length input)) suggestion_distance)) [
        | inr far ↦ rw far (Measured-skip c cs _ (levenshtein_far input c far) (near-Measured cs))
        | inl kept ↦ elim (Bool-cases (leb (levenshtein input c) suggestion_distance)) [
          | inr far ↦ rw (kept, far) (Measured-skip c cs _ (ground arith) (near-Measured cs))
          | inl close ↦ rw (kept, close) (Measured-take c cs _ (ground arith) (near-Measured cs))
        ]
      ]

  Measured-Suggests :
      (cs : List Text) (o : Option (ℕ × Text))
      → Measured input cs o
      → Suggests input cs (Option.map (λ (m : ℕ × Text). m.1) o)
  Measured-Suggests cs none h = h
  Measured-Suggests cs (some (n, c)) h = h.1

-- What `closest` suggests, over all candidates, those that it does not measure included: the first
-- of the nearest ones where one lies within the threshold, and nothing where none does.
pub closest-Suggests : (input : Text) (cs : List Text) → Suggests input cs (closest input cs)
unfolding closest
closest-Suggests input cs = Measured-Suggests input cs _ (near-Measured input cs)
