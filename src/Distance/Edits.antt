-- ===== src/Distance/Edits.antt =====
-- Edit scripts, which `levenshtein` of crates/proef-core/src/matcher.rs counts.
use mathlib.Core.List.{reverse_aux}
use proef.Base.{
  ◌⊎◌, sym, ℕ, zero, suc, ◌+◌, ◌≤◌, ◌≡◌, subst, [], ◌∷◌, reverse, min, length, arith, ◌==◌, ==_iff,
  Bool-cases, inl, inr,
}
use proef.Base.Texts.{Text}
use proef.Distance.{cost}

-- `n` single-character edits turn one text into the other.
pub data Edits : Text → Text → ℕ → Type 0 where
  done : Edits [] [] zero
  keep : (c : ℕ) {s t : Text} {n : ℕ} → Edits s t n → Edits (c ∷ s) (c ∷ t) n
  replace : (a b : ℕ) {s t : Text} {n : ℕ} → Edits s t n → Edits (a ∷ s) (b ∷ t) (suc n)
  remove : (a : ℕ) {s t : Text} {n : ℕ} → Edits s t n → Edits (a ∷ s) t (suc n)
  add : (b : ℕ) {s t : Text} {n : ℕ} → Edits s t n → Edits s (b ∷ t) (suc n)

-- The distance by recursion on the two texts.
unfoldable pub edit : Text → Text → ℕ
edit [] t = length t
edit (a ∷ s) [] = suc (length s)
edit (a ∷ s) (b ∷ t) = min (min (edit s t + cost a b) (edit (a ∷ s) t + 1)) (edit s (b ∷ t) + 1)

edit-le-remove : (a : ℕ) (s t : Text) → edit (a ∷ s) t ≤ suc (edit s t)
unfolding edit
edit-le-remove a [] [] = omega arith
edit-le-remove a (c ∷ s) [] = omega arith
edit-le-remove a s (b ∷ t) = omega arith

edit-le-add : (b : ℕ) (s t : Text) → edit s (b ∷ t) ≤ suc (edit s t)
unfolding edit
edit-le-add b [] t = omega arith
edit-le-add b (a ∷ s) t = omega arith

pub edit_least : {s t : Text} {n : ℕ} → Edits s t n → edit s t ≤ n
unfolding edit
edit_least done = omega arith
edit_least (keep c e) = ground (arith, edit_least e)
edit_least (replace a b e) = ground (arith, edit_least e)
edit_least (remove a {s = s} {t = t} e) = omega (arith, edit_least e, edit-le-remove a s t)
edit_least (add b {s = s} {t = t} e) = omega (arith, edit_least e, edit-le-add b s t)

min-cases : (m n : ℕ) → (min m n ≡ m) ⊎ (min m n ≡ n)
min-cases m n = omega arith

add_all : (t : Text) → Edits [] t (length t)
add_all [] = done
add_all (b ∷ t) = add b (add_all t)

remove_all : (s : Text) → Edits s [] (length s)
remove_all [] = done
remove_all (a ∷ s) = remove a (remove_all s)

replace_or_keep :
    (a b : ℕ) {s t : Text} {n : ℕ} → Edits s t n → Edits (a ∷ s) (b ∷ t) (n + cost a b)
replace_or_keep a b {s} {t} {n} e = elim (Bool-cases (a == b)) [
  | inl h ↦ rw h (
      subst (λ x. Edits (a ∷ s) (x ∷ t) (n + 0)) ((==_iff a b).0 h)
        (subst (Edits _ _) (omega arith) (keep a e)))
  | inr h ↦ rw h (subst (Edits _ _) (omega arith) (replace a b e))
]

Edits-min : {s t : Text} (m n : ℕ) → Edits s t m → Edits s t n → Edits s t (min m n)
Edits-min m n e f = elim (min-cases m n) [
  | inl h ↦ subst (Edits _ _) (sym h) e
  | inr h ↦ subst (Edits _ _) (sym h) f
]

-- A script of the length that the recursion gives.
pub Edits-edit : (s t : Text) → Edits s t (edit s t)
unfolding edit
Edits-edit [] t = add_all t
Edits-edit (a ∷ s) [] = remove_all (a ∷ s)
Edits-edit (a ∷ s) (b ∷ t) =
    Edits-min _ (edit s (b ∷ t) + 1)
      (Edits-min (edit s t + cost a b) (edit (a ∷ s) t + 1) (replace_or_keep a b (Edits-edit s t))
        (subst (Edits _ _) (omega arith) (add b (Edits-edit (a ∷ s) t))))
      (subst (Edits _ _) (omega arith) (remove a (Edits-edit s (b ∷ t))))

pub Edits-length :
    {s t : Text} {n : ℕ} → Edits s t n → (length s ≤ length t + n) × (length t ≤ length s + n)
Edits-length done = omega arith
Edits-length (keep c e) = omega (arith, Edits-length e)
Edits-length (replace a b e) = omega (arith, Edits-length e)
Edits-length (remove a e) = omega (arith, Edits-length e)
Edits-length (add b e) = omega (arith, Edits-length e)

-- A script read from the right.
Edits-reverse_aux :
    {s t : Text} {n : ℕ} {s' t' : Text} {m k : ℕ}
    → Edits s t n
    → Edits s' t' m
    → k ≡ n + m
    → Edits (reverse_aux s s') (reverse_aux t t') k
Edits-reverse_aux done f h = subst (Edits _ _) (omega arith) f
Edits-reverse_aux (keep c e) f h = Edits-reverse_aux e (keep c f) h
Edits-reverse_aux (replace a b e) f h = Edits-reverse_aux e (replace a b f) (omega arith)
Edits-reverse_aux (remove a e) f h = Edits-reverse_aux e (remove a f) (omega arith)
Edits-reverse_aux (add b e) f h = Edits-reverse_aux e (add b f) (omega arith)

pub Edits-reverse : {s t : Text} {n : ℕ} → Edits s t n → Edits (reverse s) (reverse t) n
Edits-reverse e = Edits-reverse_aux e done (omega arith)
