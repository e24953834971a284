-- ===== src/Artifact/Slugs.antt =====
-- crates/proef-core/src/emit.rs: what a slug is made of, and that two dashes part a name.
use proef.Base.{
  ℕ, ◌≡◌, refl, ap, ap₂, subst, ◌∙◌, ◌⊎◌, inl, inr, Bool, true, false, Option, none, some, [], ◌∷◌,
  ◌++◌, ◌==◌, if◌then◌else◌, All, cons-injective, Bool-cases, arith,
}
use proef.Base.Texts.{Text, codes}
use proef.Matcher.{is_empty}
use proef.Artifact.{Casing, dash, spaced, slugify_from, slugify, base_slug, full_slug}

-- A lower-case form is some text without a dash.
abbrev pub IsPlain : Text → Type 0
IsPlain t = (is_empty t ≡ false) × All (λ c. (c == dash) ≡ false) t

abbrev pub LowersPlainly : Casing → Type 0
LowersPlainly casing =
    (c : ℕ) → IsPlain (if casing.is_alphanumeric c then casing.to_lowercase c else codes "x")

-- Whether a dash was just read, from whether one was; two in a row are refused.
dashes : Bool → Text → Option Bool
dashes d [] = some d
dashes d (c ∷ t) =
    let plain = dashes false t in
    let dashed = dashes true t in if c == dash then (if d then none else dashed) else plain

abbrev then_dashes : Option Bool → Text → Option Bool
then_dashes none t = none
then_dashes (some d) t = dashes d t

dashes-append : (d : Bool) (s t : Text) → dashes d (s ++ t) ≡ then_dashes (dashes d s) t
unfolding dashes
dashes-append d [] t = refl
dashes-append d (c ∷ s) t = ground (arith, dashes-append false s t, dashes-append true s t)

dashes-plain :
    (d : Bool) (t : Text)
    → All (λ c. (c == dash) ≡ false) t
    → is_empty t ≡ false
    → dashes d t ≡ some false
unfolding dashes is_empty
dashes-plain d [] h e = ground arith
dashes-plain d (c ∷ []) h e = ground arith
dashes-plain d (c ∷ b ∷ t) h e = ground (arith, dashes-plain false (b ∷ t) h.1 refl)

-- No dash at either end, and no two in a row.
abbrev IsSlug : Text → Type 0
IsSlug t = (is_empty t ≡ true) ⊎ (dashes true t ≡ some false)

spaced-dashes :
    (p : Bool) (slug more : Text)
    → IsSlug slug
    → All (λ c. (c == dash) ≡ false) more
    → is_empty more ≡ false
    → dashes true (spaced p slug ++ more) ≡ some false
unfolding is_empty dashes
spaced-dashes p [] more h a e = ground (arith, dashes-plain true more a e)
spaced-dashes p (c ∷ slug) more (inl h) a e = ground arith
spaced-dashes true (c ∷ slug) more (inr h) a e =
    dashes-append true (c ∷ slug ++ (dash ∷ [])) more
    ∙ ap (λ o. then_dashes o more)
        (dashes-append true (c ∷ slug) (dash ∷ []) ∙ ap (λ o. then_dashes o (dash ∷ [])) h)
    ∙ dashes-plain true more a e
spaced-dashes false (c ∷ slug) more (inr h) a e =
    dashes-append true (c ∷ slug) more
    ∙ ap (λ o. then_dashes o more) h
    ∙ dashes-plain false more a e

module _ (casing : Casing) (lowers : LowersPlainly casing) where
  slugify_from-IsSlug :
      (slug : Text) (p : Bool) (text : Text)
      → IsSlug slug
      → IsSlug (slugify_from casing slug p text)
  unfolding slugify_from
  slugify_from-IsSlug slug p [] h = h
  slugify_from-IsSlug slug p (c ∷ text) h = elim (Bool-cases (casing.is_alphanumeric c)) [
    | inl e ↦
        let plain : IsPlain (casing.to_lowercase c) =
          subst (λ b. IsPlain (if b then casing.to_lowercase c else codes "x")) e (lowers c) in
        rw e (
          slugify_from-IsSlug (spaced p slug ++ casing.to_lowercase c) false text
            (inr (spaced-dashes p slug (casing.to_lowercase c) h plain.1 plain.0)))
    | inr e ↦ rw e (slugify_from-IsSlug slug true text h)
  ]

  -- What stands before the two dashes.
  base_slug-dashes : (base : Text) → dashes true (base_slug casing base) ≡ some false
  unfolding base_slug dashes slugify is_empty
  base_slug-dashes base = elim (slugify_from-IsSlug [] false base (inl refl)) [
    | inl e ↦ rw e refl
    | inr h ↦ elim (Bool-cases (is_empty (slugify casing base))) [
      | inl e ↦ rw e refl
      | inr e ↦ rw e h
    ]
  ]

split_dashes :
    (d : Bool) (b c s t : Text)
    → dashes d b ≡ some false
    → dashes d c ≡ some false
    → b ++ (dash ∷ dash ∷ s) ≡ c ++ (dash ∷ dash ∷ t)
    → (b ≡ c) × (s ≡ t)
unfolding dashes
split_dashes d [] [] s t h k e = (refl, (cons-injective (cons-injective e).1).1)
split_dashes d [] (x ∷ []) s t h k e = let a = cons-injective e in ground arith
split_dashes d [] (x ∷ y ∷ c) s t h k e =
    let a = cons-injective e in let b = cons-injective a.1 in ground arith
split_dashes d (x ∷ []) [] s t h k e = let a = cons-injective e in ground arith
split_dashes d (x ∷ y ∷ b) [] s t h k e =
    let a = cons-injective e in let c = cons-injective a.1 in ground arith
split_dashes d (x ∷ b) (y ∷ c) s t h k e =
    let a = cons-injective e in
    elim (Bool-cases (x == dash)) [
      | inl i ↦
          let r = split_dashes true b c s t (ground arith) (ground arith) a.1 in
          (ap₂ (λ z l. z ∷ l) a.0 r.0, r.1)
      | inr i ↦
          let r = split_dashes false b c s t (ground arith) (ground arith) a.1 in
          (ap₂ (λ z l. z ∷ l) a.0 r.0, r.1)
    ]

pub full_slug-injective :
    (casing : Casing) (b c s t : Text)
    → LowersPlainly casing
    → full_slug casing b s ≡ full_slug casing c t
    → (base_slug casing b ≡ base_slug casing c) × (slugify casing s ≡ slugify casing t)
unfolding full_slug
full_slug-injective casing b c s t lowers e =
    split_dashes true (base_slug casing b) (base_slug casing c) (slugify casing s)
      (slugify casing t) (base_slug-dashes casing lowers b) (base_slug-dashes casing lowers c) e
