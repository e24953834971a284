-- ===== src/Redaction/Masking.antt =====
-- crates/proef-core/src/report.rs: the needles in a masked text.
use proef.Base.{
  ℕ, zero, suc, ◌-◌, ◌≡◌, ◌≢◌, ◌⊎◌, ◌↔◌, inl, inr, refl, sym, subst, ◌∙◌, Bool, true, false, Option,
  none, some, [], ◌∷◌, All, any, not, filter, ◌==◌, ==_iff, length, if◌then◌else◌, arith,
  Bool-cases, Option-cases,
}
use proef.Base.Texts.{Text, strip_prefix, split_at_find}
use proef.Redaction.{
  Redactions, contains_text, taints, replace_from, or_text, apply_each, applied, apply,
}

-- The needle stands at the front, or somewhere.
abbrev Front : Text → Text → Type 0
Front [] t = Unit
Front (a ∷ m) [] = ⊥
Front (a ∷ m) (b ∷ t) = (a ≡ b) × Front m t

abbrev Occurs : Text → Text → Type 0
Occurs m [] = Front m []
Occurs m (c ∷ t) = Front m (c ∷ t) ⊎ Occurs m t

-- Not empty, and without a star.
abbrev IsMaskable : Text → Type 0
IsMaskable m = (m ≢ []) × All (λ c. c ≢ 42) m

Front-iff : (m t : Text) → (strip_prefix m t ≢ none) ↔ Front m t
unfolding strip_prefix
Front-iff [] t = ((λ h. tt), λ h. ground arith)
Front-iff (a ∷ m) [] = ((λ h. h refl), λ h. absurd h)
Front-iff (a ∷ m) (b ∷ t) = ground (arith, Front-iff m t)

replace_from-none :
    (n t : Text) (c : ℕ)
    → strip_prefix n (c ∷ t) ≡ none
    → replace_from zero n (c ∷ t) ≡ c ∷ replace_from zero n t
unfolding replace_from
replace_from-none n t c e = rw (replace_from, e) refl

replace_from-some :
    (n t : Text) (c : ℕ) {r : Text}
    → strip_prefix n (c ∷ t) ≡ some r
    → replace_from zero n (c ∷ t) ≡ 42 ∷ 42 ∷ 42 ∷ replace_from (length n - 1) n t
unfolding replace_from
replace_from-some n t c e = rw (replace_from, e) refl

Front-replace_from :
    (n m t : Text) → All (λ c. c ≢ 42) m → Front m (replace_from zero n t) → Front m t
unfolding replace_from
Front-replace_from n [] t free h = tt
Front-replace_from n (a ∷ m) [] free h = h
Front-replace_from n (a ∷ m) (c ∷ t) free h = elim (Option-cases (strip_prefix n (c ∷ t))) [
  | inl e ↦
      let (same, front) = subst (Front (a ∷ m)) (replace_from-none n t c e) h in
      (same, Front-replace_from n m t free.1 front)
  | inr (r, e) ↦
      let (same, front) = subst (Front (a ∷ m)) (replace_from-some n t c e) h in
      absurd (free.0 same)
]

-- A text without a star does not stand before one.
Front-star : (m t : Text) → IsMaskable m → Front m (42 ∷ t) → ⊥
Front-star [] t ok h = ok.0 refl
Front-star (a ∷ m) t ok h = ok.1.0 h.0

Occurs-mask : (m t : Text) → IsMaskable m → Occurs m (42 ∷ 42 ∷ 42 ∷ t) → Occurs m t
Occurs-mask m t ok (inl h) = absurd (Front-star m _ ok h)
Occurs-mask m t ok (inr (inl h)) = absurd (Front-star m _ ok h)
Occurs-mask m t ok (inr (inr (inl h))) = absurd (Front-star m _ ok h)
Occurs-mask m t ok (inr (inr (inr h))) = h

-- What occurs after a replacement has been there before.
Occurs-replace_from :
    (k : ℕ) (n m t : Text) → IsMaskable m → Occurs m (replace_from k n t) → Occurs m t
unfolding replace_from
Occurs-replace_from k n m [] ok h = h
Occurs-replace_from (suc k) n m (c ∷ t) ok h = inr (Occurs-replace_from k n m t ok h)
Occurs-replace_from zero n m (c ∷ t) ok h = elim (Option-cases (strip_prefix n (c ∷ t))) [
  | inl e ↦ elim (subst (Occurs m) (replace_from-none n t c e) h) [
    | inl front ↦ inl (
        Front-replace_from n m (c ∷ t) ok.1
          (subst (Front m) (sym (replace_from-none n t c e)) front))
    | inr later ↦ inr (Occurs-replace_from zero n m t ok later)
  ]
  | inr (r, e) ↦ inr (
      Occurs-replace_from (length n - 1) n m t ok
        (Occurs-mask m _ ok (subst (Occurs m) (replace_from-some n t c e) h)))
]

Front-nil : (m : Text) → IsMaskable m → Front m [] → ⊥
Front-nil [] ok h = ok.0 refl
Front-nil (a ∷ m) ok h = h

-- What was replaced does not occur any more.
replaced : (k : ℕ) (n t : Text) → IsMaskable n → Occurs n (replace_from k n t) → ⊥
unfolding replace_from
replaced k n [] ok h = Front-nil n ok h
replaced (suc k) n (c ∷ t) ok h = replaced k n t ok h
replaced zero n (c ∷ t) ok h = elim (Option-cases (strip_prefix n (c ∷ t))) [
  | inl e ↦ elim (subst (Occurs n) (replace_from-none n t c e) h) [
    | inl front ↦
        (Front-iff n (c ∷ t)).1
          (Front-replace_from n n (c ∷ t) ok.1
            (subst (Front n) (sym (replace_from-none n t c e)) front))
          e
    | inr later ↦ replaced zero n t ok later
  ]
  | inr (r, e) ↦
      replaced (length n - 1) n t ok
        (Occurs-mask n _ ok (subst (Occurs n) (replace_from-some n t c e) h))
]

contains_text-some :
    (m t : Text) (c : ℕ) {r : Text}
    → strip_prefix m (c ∷ t) ≡ some r
    → contains_text m (c ∷ t) ≡ true
unfolding contains_text split_at_find
contains_text-some m t c e = rw (contains_text, split_at_find, e) refl

contains_text-none :
    (m t : Text) (c : ℕ)
    → strip_prefix m (c ∷ t) ≡ none
    → contains_text m (c ∷ t) ≡ contains_text m t
unfolding contains_text split_at_find
contains_text-none m t c e = elim (Option-cases (split_at_find m t)) [
  | inl f ↦ rw (contains_text, split_at_find, e, f) refl
  | inr (r, f) ↦ rw (contains_text, split_at_find, e, f) refl
]

-- `contains` finds what occurs.
contains_text_iff : (m t : Text) → (contains_text m t ≡ true) ↔ Occurs m t
unfolding contains_text split_at_find
contains_text_iff m [] = elim (Option-cases (strip_prefix m [])) [
  | inl e ↦
      rw (contains_text, split_at_find, e)
        (λ h. absurd (ground arith), λ h. absurd ((Front-iff m []).1 h e))
  | inr (r, e) ↦
      rw (contains_text, split_at_find, e) (λ h. (Front-iff m []).0 (λ n. ground arith), λ h. refl)
]
contains_text_iff m (c ∷ t) = elim (Option-cases (strip_prefix m (c ∷ t))) [
  | inl e ↦
      let same = contains_text-none m t c e in
      (
        λ h. inr ((contains_text_iff m t).0 (sym same ∙ h)),
        λ h. elim h [
          | inl front ↦ absurd ((Front-iff m (c ∷ t)).1 front e)
          | inr later ↦ same ∙ (contains_text_iff m t).1 later
        ],
      )
  | inr (r, e) ↦
      (λ h. inl ((Front-iff m (c ∷ t)).0 (λ n. ground arith)), λ h. contains_text-some m t c e)
]

-- None of these needles occurs.
abbrev Clear : Redactions → Text → Type 0
Clear needles t = All (λ m. contains_text m t ≡ false) needles

contains_text-replace_from :
    (n m t : Text)
    → IsMaskable m
    → contains_text m t ≡ false
    → contains_text m (replace_from zero n t) ≡ false
contains_text-replace_from n m t ok h =
    elim (Bool-cases (contains_text m (replace_from zero n t))) [
      | inl e ↦ absurd (
          ground (
            arith,
            (contains_text_iff m t).1 (
                Occurs-replace_from zero n m t ok
                  ((contains_text_iff m (replace_from zero n t)).0 e)),
          ))
      | inr e ↦ e
    ]

contains_text-replaced :
    (n t : Text) → IsMaskable n → contains_text n (replace_from zero n t) ≡ false
contains_text-replaced n t ok = elim (Bool-cases (contains_text n (replace_from zero n t))) [
  | inl e ↦ absurd (replaced zero n t ok ((contains_text_iff n (replace_from zero n t)).0 e))
  | inr e ↦ e
]

-- One turn of the loop.
abbrev masked : Text → Text → Text
masked n t = if contains_text n t then replace_from zero n t else t

or_text-if :
    (c : Bool) (u t : Text) (out : Option Text)
    → or_text (if c then some u else out) t ≡ (if c then u else or_text out t)
or_text-if true u t out = refl
or_text-if false u t out = refl

masked-own : (n t : Text) → IsMaskable n → contains_text n (masked n t) ≡ false
masked-own n t ok = elim (Bool-cases (contains_text n t)) [
  | inl e ↦ rw e (contains_text-replaced n t ok)
  | inr e ↦ rw e e
]

masked-other :
    (n m t : Text) → IsMaskable m → contains_text m t ≡ false → contains_text m (masked n t) ≡ false
masked-other n m t ok h = elim (Bool-cases (contains_text n t)) [
  | inl e ↦ rw e (contains_text-replace_from n m t ok h)
  | inr e ↦ rw e h
]

-- The loop goes on with the masked text.
or_text-turn :
    (n : Text) (out : Option Text) (t : Text)
    → or_text
        (if contains_text n (or_text out t)
          then some (replace_from zero n (or_text out t))
          else out)
        t
      ≡ masked n (or_text out t)
or_text-turn n out t =
    or_text-if (contains_text n (or_text out t)) (replace_from zero n (or_text out t)) t out

apply_each-keeps :
    (needles : Redactions) (out : Option Text) (t m : Text)
    → IsMaskable m
    → contains_text m (or_text out t) ≡ false
    → contains_text m (or_text (apply_each needles out t) t) ≡ false
unfolding apply_each
apply_each-keeps [] out t m ok h = h
apply_each-keeps (n ∷ needles) out t m ok h =
    apply_each-keeps needles _ t m ok
      (rw (or_text-turn n out t) (masked-other n m (or_text out t) ok h))

abbrev pub is_starless : Text → Bool
is_starless m = not (any (λ c. c == 42) m)

starless-All : (m : Text) → is_starless m ≡ true → All (λ c. c ≢ 42) m
starless-All [] h = tt
starless-All (c ∷ m) h = elim (Bool-cases (c == 42)) [
  | inl e ↦ absurd (ground arith)
  | inr e ↦ ((λ same. ground (arith, ==_iff c 42)), starless-All m (ground arith))
]

apply_each-Clear :
    (needles : Redactions) (out : Option Text) (t : Text)
    → All (λ m. m ≢ []) needles
    → Clear (filter is_starless needles) (or_text (apply_each needles out t) t)
unfolding apply_each
apply_each-Clear [] out t ok = tt
apply_each-Clear (n ∷ needles) out t (ok, oks) = elim (Bool-cases (is_starless n)) [
  | inr e ↦ rw e (apply_each-Clear needles _ t oks)
  | inl e ↦
      let maskable : IsMaskable n = (ok, starless-All n e) in
      rw e (
        apply_each-keeps needles _ t n maskable
            (rw (or_text-turn n out t) (masked-own n (or_text out t) maskable)),
        apply_each-Clear needles _ t oks,
      )
]

Clear-taints : (needles : Redactions) (t : Text) → Clear needles t → taints needles t ≡ false
unfolding taints
Clear-taints [] t h = refl
Clear-taints (n ∷ needles) t (h, hs) = rw (h, Clear-taints needles t hs) refl

-- Where no needle is empty, a redacted text carries no needle without a star in it, whatever the other
-- needles are, in which order they come and however they overlap.
pub taints-apply :
    (needles : Redactions) (t : Text)
    → All (λ m. m ≢ []) needles
    → taints (filter is_starless needles) (apply needles t) ≡ false
unfolding apply applied
taints-apply needles t ok =
    Clear-taints (filter is_starless needles) (apply needles t) (apply_each-Clear needles none t ok)

apply_each-some :
    (needles : Redactions) (u t : Text) → (v : Text) × (apply_each needles (some u) t ≡ some v)
unfolding apply_each
apply_each-some [] u t = (u, refl)
apply_each-some (n ∷ needles) u t = elim (Bool-cases (contains_text n u)) [
  | inl e ↦ rw (apply_each, e) (apply_each-some needles (replace_from zero n u) t)
  | inr e ↦ rw (apply_each, e) (apply_each-some needles u t)
]

-- `applied` gives nothing exactly for the texts in which `taints` finds nothing.
pub applied-eq-none_iff :
    (needles : Redactions) (t : Text) → (applied needles t ≡ none) ↔ (taints needles t ≡ false)
unfolding applied apply_each taints
applied-eq-none_iff [] t = (λ h. refl, λ h. refl)
applied-eq-none_iff (n ∷ needles) t = elim (Bool-cases (contains_text n t)) [
  | inl e ↦
      let (v, stays) = apply_each-some needles (replace_from zero n t) t in
      rw (applied, apply_each, taints, e, stays)
        (λ h. absurd (ground arith), λ h. absurd (ground arith))
  | inr e ↦ rw (applied, apply_each, taints, e) (applied-eq-none_iff needles t)
]
