-- ===== src/Fake/Generated.antt =====
-- crates/proef-core/src/fake.rs: the whole vocabulary of `generate`.
use proef.Base.{
  ℕ, ◌≡◌, refl, sym, ◌∙◌, ap, Bool-cases, Option, none, some, List, [], ◌∷◌, any, is_some, inl, inr,
}
use mathlib.Core.Option
use proef.Base.Texts.{Text, text_eq}
use proef.Base.Maps.{Map, lookup}
use proef.Fake.{Rng, arms, generators, is_known_generator, generate, seed_of}
use proef.Fake.Shapes.{Piece, Matches, shapes}
use proef.Fake.Drawn.{
  Draws, first_name-Draws, last_name-Draws, full_name-Draws, email-Draws, username-Draws,
  phone-Draws, post_code-Draws, city-Draws, street-Draws, number-Draws, digits4-Draws,
  digits8-Draws, flag-Draws, word-Draws, uuid-Draws,
}

-- What is generated has the promised form, and only what has one is generated.
abbrev pub Agrees : Option Text → Option (List Piece) → Type 0
Agrees none none = Unit
Agrees none (some ps) = ⊥
Agrees (some t) none = ⊥
Agrees (some t) (some ps) = Matches ps t

abbrev Keeps : Map (Rng Text) → Map (List Piece) → Type 0
Keeps [] [] = Unit
Keeps ((k, draw) ∷ ds) ((j, ps) ∷ ss) = (k ≡ j) × (Draws ps draw × Keeps ds ss)
Keeps _ _ = ⊥

drawn : ℕ → Option (Rng Text) → Option Text
drawn s o = Option.map (λ (draw : Rng Text). (draw s).0) o

lookup-Keeps :
    (g : Text) (s : ℕ) (ds : Map (Rng Text)) (ss : Map (List Piece))
    → Keeps ds ss
    → Agrees (drawn s (lookup g ds)) (lookup g ss)
unfolding lookup drawn Draws
lookup-Keeps g s [] [] h = tt
lookup-Keeps g s [] (_ ∷ ss) h = elim h [ ]
lookup-Keeps g s (_ ∷ ds) [] h = elim h [ ]
lookup-Keeps g s ((k, draw) ∷ ds) ((j, ps) ∷ ss) (same, (h, hs)) = elim (Bool-cases (text_eq j g)) [
  | inl e ↦ rw (ap (λ i. text_eq i g) same ∙ e, e) (h s)
  | inr e ↦ rw (ap (λ i. text_eq i g) same ∙ e, e) (lookup-Keeps g s ds ss hs)
]

keys {ℓ} : {V : Type ℓ} → Map V → List Text
keys [] = []
keys ((k, _) ∷ m) = k ∷ keys m

is_some-lookup {ℓ} :
    {V : Type ℓ} (g : Text) (m : Map V) → any (λ k. text_eq k g) (keys m) ≡ is_some (lookup g m)
unfolding lookup keys
is_some-lookup g [] = refl
is_some-lookup g ((k, v) ∷ m) = elim (Bool-cases (text_eq k g)) [
  | inl e ↦ rw e refl
  | inr e ↦ rw e (is_some-lookup g m)
]

is_some-drawn : (s : ℕ) (o : Option (Rng Text)) → is_some (drawn s o) ≡ is_some o
unfolding drawn
is_some-drawn s none = refl
is_some-drawn s (some _) = refl

arms-Keeps : Keeps arms shapes
arms-Keeps = (
  refl,
  (
    first_name-Draws,
    (
      refl,
      (
        last_name-Draws,
        (
          refl,
          (
            full_name-Draws,
            (
              refl,
              (
                full_name-Draws,
                (
                  refl,
                  (
                    email-Draws,
                    (
                      refl,
                      (
                        username-Draws,
                        (
                          refl,
                          (
                            phone-Draws,
                            (
                              refl,
                              (
                                post_code-Draws,
                                (
                                  refl,
                                  (
                                    city-Draws,
                                    (
                                      refl,
                                      (
                                        street-Draws,
                                        (
                                          refl,
                                          (
                                            number-Draws,
                                            (
                                              refl,
                                              (
                                                number-Draws,
                                                (
                                                  refl,
                                                  (
                                                    digits4-Draws,
                                                    (
                                                      refl,
                                                      (
                                                        digits8-Draws,
                                                        (
                                                          refl,
                                                          (
                                                            flag-Draws,
                                                            (
                                                            refl,
                                                            (word-Draws, (refl, (uuid-Draws, tt))),
                                                            ),
                                                          ),
                                                        ),
                                                      ),
                                                    ),
                                                  ),
                                                ),
                                              ),
                                            ),
                                          ),
                                        ),
                                      ),
                                    ),
                                  ),
                                ),
                              ),
                            ),
                          ),
                        ),
                      ),
                    ),
                  ),
                ),
              ),
            ),
          ),
        ),
      ),
    ),
  ),
)

keys-arms : generators ≡ keys arms
unfolding keys
keys-arms = refl

-- For every run id and occurrence, a generator that is on the list gives a text of the form that
-- it promises, and any other name gives nothing: the static check of names knows exactly the names
-- that generate.
pub generate-Agrees :
    (run_id : Text) (occurrence : ℕ) (generator : Text)
    → Agrees (generate run_id occurrence generator) (lookup generator shapes)
      × (is_known_generator generator ≡ is_some (generate run_id occurrence generator))
generate-Agrees run_id occurrence generator =
    let s = seed_of run_id occurrence generator in
    (
      unfold generate drawn in lookup-Keeps generator s arms shapes arms-Keeps,
      unfold generate drawn is_known_generator in
          (ap (λ ks. any (λ k. text_eq k generator) ks) keys-arms
            ∙ is_some-lookup generator arms
            ∙ sym (is_some-drawn s (lookup generator arms))),
    )
