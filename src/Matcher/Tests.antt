-- ===== src/Matcher/Tests.antt =====
-- crates/proef-core/src/matcher.rs: the matcher at work.
use proef.Base.{◌≡◌, ◌↔◌, refl, some, arith, List, [], ◌∷◌}
use proef.Base.Texts.{codes}
use proef.Matcher.{Token, literal, capture, tokenize, match_pattern}
use proef.Matcher.Tokens.{IsCanonical, render, trimmed}
use proef.Matcher.Filling.{Values, Fills, bind_values, match_pattern_iff}

tokens :
    tokenize (codes "search for { term } now")
    ≡ literal (codes "search for ") ∷ capture (codes "term") ∷ literal (codes " now") ∷ []
unfolding tokenize
tokens = refl

-- The text before an unclosed brace is in the tokens twice.
unclosed : tokenize (codes "ab{c") ≡ literal (codes "ab") ∷ literal (codes "ab{c") ∷ []
unfolding tokenize
unclosed = refl

matched :
    match_pattern (codes "go to {b} at {a}") (codes "go to \"x y\" at 5 ")
    ≡ some ((codes "a", codes "5") ∷ (codes "b", codes "x y") ∷ [])
unfolding match_pattern
matched = refl

abbrev place : List Token
place = literal (codes "go to ") ∷ capture (codes " place ") ∷ literal (codes " now") ∷ []

place-IsCanonical : IsCanonical place
place-IsCanonical = ((λ e. cc), omega arith, tt, (omega arith, ((λ e. cc), omega arith, tt, tt)))

match_pattern_iff_example :
    (match_pattern (render place) (codes "go to 'x' now") ≡ some ((codes "place", codes "x") ∷ []))
    ↔ ((vs : Values) × Fills (trimmed place) vs (codes "go to 'x' now")
        × ((codes "place", codes "x") ∷ [] ≡ bind_values vs []))
match_pattern_iff_example =
    match_pattern_iff place (codes "go to 'x' now") ((codes "place", codes "x") ∷ [])
      place-IsCanonical
