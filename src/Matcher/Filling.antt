-- ===== src/Matcher/Filling.antt =====
-- What a match means: the text is the pattern with its captures filled in, each by the text up to
-- the leftmost place of the literal that follows it.
use mathlib.Core.Option.{none-ne-some}
use proef.Base.{
  append-nil, inl, inr, ◌≡◌, ◌↔◌, refl, sym, subst, Option, none, some, List, [], ◌∷◌, ◌++◌,
  Option-cases,
}
use proef.Base.Texts.{Text, strip_prefix, split_at_find}
use proef.Base.Maps.{Map}
use proef.Base.Finding.{Starts, NoneWithin, strip_prefix_iff, split_at_find_iff}
use proef.Matcher.{
  Token, literal, capture, is_empty, next_literal, bind_value, match_tokens, tokenize,
  match_pattern,
}
use proef.Matcher.Tokens.{IsCanonical, render, trimmed, tokenize-render}

-- What the captures took, in the pattern's order: the name and the text as it stands.
abbrev pub Values : Type 0
Values = List (Text × Text)

abbrev pub EndsAt : Option Text → Text → Text → Type 0
EndsAt none v r = r ≡ []
EndsAt (some lit) v r = Starts lit r × NoneWithin lit v r

-- `s` is the pattern filled with these values.
abbrev pub Fills : List Token → Values → Text → Type 0
Fills [] [] s = s ≡ []
Fills [] (_ ∷ _) s = ⊥
Fills (literal lit ∷ ts) vs s = (r : Text) × (s ≡ lit ++ r) × Fills ts vs r
Fills (capture name ∷ ts) [] s = ⊥
Fills (capture name ∷ ts) ((m, v) ∷ vs) s =
    (m ≡ name) × ((r : Text) × (s ≡ v ++ r) × EndsAt (next_literal ts) v r × Fills ts vs r)

abbrev pub bind_values : Values → Map Text → Map Text
bind_values [] args = args
bind_values (v ∷ vs) args = bind_values vs (bind_value args v)

match_tokens_sound :
    (ts : List Token) (s : Text) (args out : Map Text)
    → match_tokens ts s args ≡ some out
    → (vs : Values) × Fills ts vs s × (out ≡ bind_values vs args)
unfolding match_tokens is_empty
match_tokens_sound [] [] args out h = ([], refl, cc)
match_tokens_sound [] (c ∷ s) args out h = cc
match_tokens_sound (literal lit ∷ ts) s args out h = elim (Option-cases (strip_prefix lit s)) [
  | inl e ↦ absurd (none-ne-some out (rw (e, match_tokens) at h))
  | inr (r, e) ↦
      let (vs, f, q) = match_tokens_sound ts r args out (rw (e, match_tokens) at h) in
      (vs, (r, (strip_prefix_iff lit s r).0 e, f), q)
]
match_tokens_sound (capture name ∷ ts) s args out h = elim (Option-cases (next_literal ts)) [
  | inl e ↦
      let (vs, f, q) =
        match_tokens_sound ts [] (bind_value args (name, s)) out (rw (e, match_tokens) at h) in
      ((name, s) ∷ vs, (refl, ([], sym (append-nil s), rw e refl, f)), q)
  | inr (lit, e) ↦ elim (Option-cases (split_at_find lit s)) [
    | inl e' ↦ absurd (none-ne-some out (rw (e', match_tokens) at (rw (e, match_tokens) at h)))
    | inr ((v, r), e') ↦
        let (vs, f, q) =
          match_tokens_sound ts r (bind_value args (name, v)) out
            (rw (e', match_tokens) at (rw (e, match_tokens) at h)) in
        let (split, starts, within) = (split_at_find_iff lit s v r).0 e' in
        ((name, v) ∷ vs, (refl, (r, split, rw e (starts, within), f)), q)
  ]
]

match_tokens_complete :
    (ts : List Token) (vs : Values) (s : Text) (args : Map Text)
    → Fills ts vs s
    → match_tokens ts s args ≡ some (bind_values vs args)
unfolding match_tokens is_empty
match_tokens_complete [] [] s args h = rw (h, match_tokens)
match_tokens_complete [] (_ ∷ _) s args h = absurd h
match_tokens_complete (literal lit ∷ ts) vs s args (r, e, f) =
    rw ((strip_prefix_iff lit s r).1 e, match_tokens) (match_tokens_complete ts vs r args f)
match_tokens_complete (capture name ∷ ts) [] s args h = absurd h
match_tokens_complete (capture name ∷ ts) ((m, v) ∷ vs) s args (same, (r, e, ends, f)) =
    elim (Option-cases (next_literal ts)) [
      | inl q ↦
          let r_nil : r ≡ [] = rw q at ends in
          rw (q, match_tokens)
            (rw (e, r_nil, append-nil, ← same)
              (match_tokens_complete ts vs [] (bind_value args (m, v)) (rw r_nil at f)))
      | inr (lit, q) ↦
          let (starts, within) : EndsAt (some lit) v r = rw q at ends in
          rw (q, match_tokens)
            (rw ((split_at_find_iff lit s v r).1 (e, starts, within), match_tokens)
              (rw (← same) (match_tokens_complete ts vs r (bind_value args (m, v)) f)))
    ]

pub match_pattern-tokenize :
    (pattern text : Text) (out : Map Text)
    → (match_pattern pattern text ≡ some out)
      ↔ ((vs : Values) × Fills (tokenize pattern) vs text × (out ≡ bind_values vs []))
unfolding match_pattern
match_pattern-tokenize pattern text out = (
  match_tokens_sound (tokenize pattern) text [] out,
  λ (vs, f, e). rw e (match_tokens_complete (tokenize pattern) vs text [] f),
)

-- Let a pattern be written from literal texts and captures, each capture in its braces, without an
-- unclosed brace. A step's text matches it exactly when the text is those literals with the captures
-- filled in, each capture ending at the leftmost place where the next literal stands, and the last
-- one, or one with no literal text behind it, at the end of the text; the arguments are then those
-- texts, trimmed and without their quotes, under the trimmed names, a later capture of a name
-- replacing an earlier one.
pub match_pattern_iff :
    (ts : List Token) (text : Text) (out : Map Text)
    → IsCanonical ts
    → (match_pattern (render ts) text ≡ some out)
      ↔ ((vs : Values) × Fills (trimmed ts) vs text × (out ≡ bind_values vs []))
match_pattern_iff ts text out h =
    subst
      (λ us.
        (match_pattern (render ts) text ≡ some out)
        ↔ ((vs : Values) × Fills us vs text × (out ≡ bind_values vs [])))
      (tokenize-render ts h) (match_pattern-tokenize (render ts) text out)
