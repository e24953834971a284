-- ===== src/Tags/Glob/Meaning.antt =====
-- crates/proef-core/src/tags.rs: what a glob selects, and the loop of `glob_at`.
use proef.Base.{
  ℕ, zero, suc, ◌+◌, ◌*◌, ◌≤◌, ◌<◌, ◌≡◌, ◌≢◌, ◌↔◌, ◌⊎◌, inl, inr, refl, sym, subst, ap₂, Bool, true,
  false, none, some, [], ◌∷◌, all, any, length, arith, ◌==◌, ==_iff, ◌||◌, Bool-cases,
  cons-injective,
}
use proef.Base.Texts.{Text, text_eq_iff}
use proef.Tags.Glob.{
  star, any_char, Retry, Answer, go_back, glob_loop, glob_fuel, glob_at, atom_matches,
}

-- `P` holds of the text or of one of its tails.
abbrev pub SomeTail : (Text → Type 0) → Text → Type 0
SomeTail P [] = P []
SomeTail P (x ∷ t) = P (x ∷ t) ⊎ SomeTail P t

abbrev pub Accepts : ℕ → ℕ → Type 0
Accepts c x = (c ≡ any_char) ⊎ (c ≡ x)

-- The whole text fits the pattern: `*` stands for any run of characters, `?` for any one
-- character, and every other character for itself.
abbrev pub Globs : Text → Text → Type 0
Globs [] t = t ≡ []
Globs (c ∷ p) t =
    ((c ≡ star) × SomeTail (Globs p) t)
    ⊎ ((c ≢ star) × ((x : ℕ) × (rest : Text) × (t ≡ x ∷ rest) × Accepts c x × Globs p rest))

here : (P : Text → Type 0) (t : Text) → P t → SomeTail P t
here P [] h = h
here P (x ∷ t) h = inl h

SomeTail-twice : (p t : Text) (c : ℕ) → c ≡ star → SomeTail (Globs (c ∷ p)) t → SomeTail (Globs p) t
SomeTail-twice p [] c e (inl (_, h)) = h
SomeTail-twice p [] c e (inr (ne, _)) = absurd (ne e)
SomeTail-twice p (x ∷ t) c e (inl (inl (_, h))) = h
SomeTail-twice p (x ∷ t) c e (inl (inr (ne, _))) = absurd (ne e)
SomeTail-twice p (x ∷ t) c e (inr h) = inr (SomeTail-twice p t c e h)

-- A pattern that begins with a character takes one character off the text.
Globs-char : (c x : ℕ) (p t : Text) → c ≢ star → Globs (c ∷ p) (x ∷ t) → Accepts c x × Globs p t
Globs-char c x p t ne (inl (e, _)) = absurd (ne e)
Globs-char c x p t ne (inr (_, (y, rest, split, acc, g))) =
    let (same, tails) = cons-injective split in
    (subst (Accepts c) (sym same) acc, subst (Globs p) (sym tails) g)

not-Globs-nil : (c : ℕ) (p : Text) → c ≢ star → ¬ Globs (c ∷ p) []
not-Globs-nil c p ne (inl (e, _)) = ne e
not-Globs-nil c p ne (inr (_, (y, rest, split, _, _))) = cc

-- Wherever the character and the pattern fit, the pattern fits from one character on.
SomeTail-char :
    (c x : ℕ) (p t : Text) → c ≢ star → SomeTail (Globs (c ∷ p)) (x ∷ t) → SomeTail (Globs p) t
SomeTail-char c x p t ne (inl h) = here (Globs p) t (Globs-char c x p t ne h).1
SomeTail-char c x p [] ne (inr h) = absurd (not-Globs-nil c p ne h)
SomeTail-char c x p (y ∷ t) ne (inr h) = inr (SomeTail-char c y p t ne h)

all_stars_iff : (p : Text) → (all (λ c. c == star) p ≡ true) ↔ Globs p []
all_stars_iff [] = ((λ _. refl), λ _. refl)
all_stars_iff (c ∷ p) = elim (Bool-cases (c == star)) [
  | inl h ↦ rw h (
    λ e. inl ((==_iff c star).0 h, (all_stars_iff p).0 e),
    λ (g : Globs (c ∷ p) []). elim g [
      | inl (_, g') ↦ (all_stars_iff p).1 g'
      | inr (ne, _) ↦ absurd (ne ((==_iff c star).0 h))
    ],
  )
  | inr h ↦ rw h ((λ e. cc), λ g. absurd (not-Globs-nil c p (λ e. ground arith) g))
]

refuse : (c x : ℕ) → (c == any_char || c == x) ≡ false → ¬ Accepts c x
refuse c x h (inl e) = ground arith
refuse c x h (inr e) = ground arith

-- The run ended, with the right answer.
abbrev pub Answers : Type 0 → Answer → Type 0
Answers G none = ⊥
Answers G (some true) = G
Answers G (some false) = ¬ G

Answers-some : (G : Type 0) (b : Bool) → (b ≡ true) ↔ G → Answers G (some b)
Answers-some G true e = e.0 refl
Answers-some G false e = λ g. ground (arith, e.1 g)

module _ (G : Type 0) (k : ℕ) where
  abbrev Saved : ℕ → Text → Text → Retry → Type 0
  Saved m p t none = G → Globs p t
  Saved m p t (some (bp, bt)) =
      (G ↔ SomeTail (Globs bp) bt)
      × (Globs bp bt → Globs p t)
      × (length t ≤ length bt)
      × (length bt ≤ m)
      × (length bp < k)

  record Inv (f m : ℕ) (p t : Text) (retry : Retry) : Type 0 where
    now : Globs p t → G
    later : G → SomeTail (Globs p) t
    saved : Saved m p t retry
    text_left : length t ≤ m
    pattern_left : length p < k
    fuel : m * k + length p < f

  -- The question at a star, or at the point behind one.
  Inv-restart :
      (f m : ℕ) (p t : Text)
      → G ↔ SomeTail (Globs p) t
      → length t ≤ m
      → length p < k
      → m * k + length p < f
      → Inv f m p t (some (p, t))
  Inv-restart f m p t e ht hp hf = record {
    now = λ g. e.1 (here (Globs p) t g);
    later = e.0;
    saved = (e, λ g. g, omega arith, ht, hp);
    text_left = ht;
    pattern_left = hp;
    fuel = hf;
  }

  Saved-char :
      (m c x : ℕ) (p t : Text) (retry : Retry)
      → c ≢ star
      → Saved m (c ∷ p) (x ∷ t) retry
      → Saved m p t retry
  Saved-char m c x p t none ne h = λ g. (Globs-char c x p t ne (h g)).1
  Saved-char m c x p t (some (bp, bt)) ne (e, down, ht, hb, hp) =
      (e, λ g. (Globs-char c x p t ne (down g)).1, omega arith, hb, hp)

  Inv-char :
      (f m c x : ℕ) (p t : Text) (retry : Retry)
      → c ≢ star
      → Accepts c x
      → Inv (suc f) m (c ∷ p) (x ∷ t) retry
      → Inv f m p t retry
  Inv-char f m c x p t retry ne acc i = record {
    now = λ g. i.now (inr (ne, (x, t, refl, acc, g)));
    later = λ g. SomeTail-char c x p t ne (i.later g);
    saved = Saved-char m c x p t retry ne i.saved;
    text_left = omega (arith, i.text_left);
    pattern_left = omega (arith, i.pattern_left);
    fuel = omega (arith, i.fuel);
  }

  drop_head :
      (x : ℕ) (p t : Text) → ¬ Globs p (x ∷ t) → SomeTail (Globs p) (x ∷ t) → SomeTail (Globs p) t
  drop_head x p t n (inl h) = absurd (n h)
  drop_head x p t n (inr h) = h

  go_back-Answers :
      (f m x : ℕ) (p t : Text) (retry : Retry) (next : Text → Text → Retry → Answer)
      → ((m' : ℕ) (p' t' : Text) (r : Retry) → Inv f m' p' t' r → Answers G (next p' t' r))
      → ¬ Globs p (x ∷ t)
      → Inv (suc f) m p (x ∷ t) retry
      → Answers G (go_back retry next)
  unfolding go_back
  go_back-Answers f m x p t none next ih n i = λ g. n (i.saved g)
  go_back-Answers f m x p t (some (bp, [])) next ih n i = absurd (omega (arith, i.saved.2))
  go_back-Answers f zero x p t (some (bp, y ∷ bt)) next ih n i = absurd (omega (arith, i.saved.3))
  go_back-Answers f (suc m) x p t (some (bp, y ∷ bt)) next ih n i =
      let (e, down, _, hb, hp) = i.saved in
      ih m bp bt (some (bp, bt)) (
        Inv-restart f m bp bt (λ g. drop_head y bp bt (λ h. n (down h)) (e.0 g), λ h. e.1 (inr h))
          (omega arith) hp (omega (arith, i.fuel)))

  glob_loop-Answers :
      (f m : ℕ) (p t : Text) (retry : Retry) → Inv f m p t retry → Answers G (glob_loop f p t retry)
  unfolding glob_loop
  glob_loop-Answers zero m p t retry i = absurd (omega (arith, i.fuel))
  glob_loop-Answers (suc f) m p [] retry i =
      let (sound, complete) = all_stars_iff p in
      Answers-some G (all (λ c. c == star) p) (λ h. i.now (sound h), λ g. complete (i.later g))
  glob_loop-Answers (suc f) m [] (x ∷ t) retry i =
      go_back-Answers f m x [] t retry (glob_loop f) (glob_loop-Answers f) (λ e. cc) i
  glob_loop-Answers (suc f) m (c ∷ p) (x ∷ t) retry i = elim (Bool-cases (c == star)) [
    | inl h ↦
        let e = (==_iff c star).0 h in
        rw h (
          glob_loop-Answers f m p (x ∷ t) (some (p, x ∷ t)) (
            Inv-restart f m p (x ∷ t)
              (λ g. SomeTail-twice p (x ∷ t) c e (i.later g), λ g. i.now (inl (e, g))) i.text_left
              (omega (arith, i.pattern_left)) (omega (arith, i.fuel))))
    | inr h ↦
        let ne : c ≢ star = ground arith in
        elim (Bool-cases (c == any_char || c == x)) [
          | inl a ↦
              rw (h, a)
                (glob_loop-Answers f m p t retry (Inv-char f m c x p t retry ne (ground arith) i))
          | inr a ↦
              rw (h, a)
                (go_back-Answers f m x (c ∷ p) t retry (glob_loop f) (glob_loop-Answers f)
                  (λ g. refuse c x a (Globs-char c x p t ne g).0) i)
        ]
  ]

glob_at-Answers : (p t : Text) → Answers (Globs p t) (glob_at p t)
unfolding glob_at
glob_at-Answers p t =
    glob_loop-Answers (Globs p t) (length p + 1) (glob_fuel p t) (length t) p t none (record {
      now = λ g. g;
      later = here (Globs p) t;
      saved = λ g. g;
      text_left = omega arith;
      pattern_left = omega arith;
      fuel = omega arith;
    })

plain-ne :
    (c : ℕ) (p : Text)
    → any (λ x. x == star || x == any_char) (c ∷ p) ≡ false
    → (c ≢ star) × (c ≢ any_char) × (any (λ x. x == star || x == any_char) p ≡ false)
plain-ne c p h = (ground arith, ground arith, ground arith)

Globs→eq : (p t : Text) → any (λ c. c == star || c == any_char) p ≡ false → Globs p t → p ≡ t
Globs→eq [] t h g = sym g
Globs→eq (c ∷ p) [] h g = absurd (not-Globs-nil c p (plain-ne c p h).0 g)
Globs→eq (c ∷ p) (x ∷ t) h g =
    let (no_star, no_any, plain) = plain-ne c p h in
    let (acc, g') = Globs-char c x p t no_star g in
    ap₂ ◌∷◌ (same_char no_any acc) (Globs→eq p t plain g')
  where
    same_char : c ≢ any_char → Accepts c x → c ≡ x
    same_char ne (inl e) = absurd (ne e)
    same_char ne (inr e) = e

Globs-self : (p : Text) → any (λ c. c == star || c == any_char) p ≡ false → Globs p p
Globs-self [] h = refl
Globs-self (c ∷ p) h =
    let (no_star, no_any, plain) = plain-ne c p h in
    inr (no_star, (c, p, refl, inr refl, Globs-self p plain))

-- A pattern without `*` and `?` selects itself alone.
Globs-literal : (p t : Text) → any (λ c. c == star || c == any_char) p ≡ false → Globs p t ↔ (p ≡ t)
Globs-literal p t h = (Globs→eq p t h, λ e. subst (Globs p) e (Globs-self p h))

Answers-iff :
    (G : Type 0) (o : Answer)
    → Answers G o
    → (let b : Bool = elim o [ none ↦ false | some b ↦ b ] in b ≡ true) ↔ G
Answers-iff G none h = absurd h
Answers-iff G (some true) h = ((λ _. h), λ _. refl)
Answers-iff G (some false) h = ((λ e. cc), λ g. absurd (h g))

-- An atom selects a tag exactly when the whole tag fits it as a glob, case sensitively, with `*`
-- for any run of characters and `?` for exactly one.
pub atom_matches_iff : (pattern t : Text) → (atom_matches pattern t ≡ true) ↔ Globs pattern t
unfolding atom_matches
atom_matches_iff pattern t = elim (Bool-cases (any (λ c. c == star || c == any_char) pattern)) [
  | inl h ↦ rw h (Answers-iff (Globs pattern t) (glob_at pattern t) (glob_at-Answers pattern t))
  | inr h ↦
      let (to, from) = Globs-literal pattern t h in
      let (to', from') = text_eq_iff pattern t in rw h ((λ e. from (to' e)), λ g. from' (to g))
]
