-- ===== src/Matcher/Problems/Kept.antt =====
-- crates/proef-core/src/matcher.rs: the captured values of a pattern without problems.
use proef.Base.{◌≡◌, ◌≢◌, refl, sym, subst, some, List, [], ◌∷◌, Any, All, arith}
use proef.Base.Texts.{Text, text_eq_iff, text_eq_refl, trim}
use proef.Base.Maps.{Map, lookup, lookup-insert}
use proef.Matcher.{Token, literal, capture, bind_value, tokenize, match_pattern, shed_quotes}
use proef.Matcher.Filling.{Values, Fills, bind_values, match_pattern-tokenize}
use proef.Matcher.Problems.{pattern_problems}
use proef.Matcher.Problems.Sound.{captures, Distinct, IsKnown, pattern_problems-eq-nil_iff}

abbrev names : Values → List Text
names [] = []
names ((n, _) ∷ vs) = n ∷ names vs

names-Fills : (ts : List Token) (vs : Values) (s : Text) → Fills ts vs s → names vs ≡ captures ts
names-Fills [] [] s h = refl
names-Fills [] (_ ∷ _) s h = absurd h
names-Fills (literal _ ∷ ts) vs s (r, _, f) = names-Fills ts vs r f
names-Fills (capture _ ∷ ts) [] s h = absurd h
names-Fills (capture _ ∷ ts) (_ ∷ vs) s (same, (r, _, _, f)) = cc (same, names-Fills ts vs r f)

lookup-bind_values :
    (n : Text) (vs : Values) (args : Map Text)
    → All (λ m. m ≢ n) (names vs)
    → lookup n (bind_values vs args) ≡ lookup n args
lookup-bind_values n [] args h = refl
lookup-bind_values n ((m, v) ∷ vs) args (ne, h) =
    rw (lookup-bind_values n vs (bind_value args (m, v)) h, lookup-insert m n)
      (ground (arith, text_eq_iff m n))

abbrev pub IsKept : Map Text → Text × Text → Type 0
IsKept args (n, v) = lookup n args ≡ some (shed_quotes (trim v))

bind_values-IsKept :
    (vs : Values) (args : Map Text) → Distinct (names vs) → All (IsKept (bind_values vs args)) vs
bind_values-IsKept [] args h = tt
bind_values-IsKept ((n, v) ∷ vs) args (ne, h) = (
  rw (lookup-bind_values n vs (bind_value args (n, v)) ne, lookup-insert n n, text_eq_refl n) refl,
  bind_values-IsKept vs (bind_value args (n, v)) h,
)

-- Each value stands under a declared parameter.
abbrev pub IsDeclared : List Text → Text × Text → Type 0
IsDeclared params (n, v) = Any (λ p. p ≡ n) params

Fills-IsDeclared :
    (params : List Text) (ts : List Token) (vs : Values) (s : Text)
    → All (IsKnown params) ts
    → Fills ts vs s
    → All (IsDeclared params) vs
Fills-IsDeclared params [] [] s k h = tt
Fills-IsDeclared params [] (_ ∷ _) s k h = absurd h
Fills-IsDeclared params (literal _ ∷ ts) vs s (_, k) (r, _, f) = Fills-IsDeclared params ts vs r k f
Fills-IsDeclared params (capture _ ∷ ts) [] s k h = absurd h
Fills-IsDeclared params (capture _ ∷ ts) (_ ∷ vs) s ((_, here), k) (same, (r, _, _, f)) =
    (rw same here, Fills-IsDeclared params ts vs r k f)

-- Where `pattern_problems` finds nothing, a match keeps the value of every capture, trimmed and
-- without its quotes, under the capture's own name, and each of those names is a parameter.
pub match_pattern-IsKept :
    (pattern text : Text) (params : List Text) (args : Map Text)
    → pattern_problems pattern params ≡ []
    → match_pattern pattern text ≡ some args
    → (vs : Values) × Fills (tokenize pattern) vs text
      × All (IsKept args) vs
      × All (IsDeclared params) vs
match_pattern-IsKept pattern text params args sound h =
    let (vs, f, e) = (match_pattern-tokenize pattern text args).0 h in
    let s = (pattern_problems-eq-nil_iff pattern params).0 sound in
    let kept =
      bind_values-IsKept vs [] (subst Distinct (sym (names-Fills _ vs text f)) s.distinct) in
    (
      vs,
      f,
      subst (λ m. All (IsKept m) vs) (sym e) kept,
      Fills-IsDeclared params (tokenize pattern) vs text s.known f,
    )
