-- ===== src/Matcher/Problems/Tests.antt =====
-- crates/proef-core/src/matcher.rs: `pattern_problems` at work.
use proef.Base.{◌≡◌, ◌↔◌, refl, some, none, List, [], ◌∷◌}
use proef.Base.Texts.{Text, codes}
use proef.Distance.{levenshtein}
use proef.Matcher.{tokenize, match_pattern}
use proef.Matcher.Problems.{
  pattern_problems, adjacent_captures, no_anchor, duplicate_capture, unknown_capture,
}
use proef.Matcher.Problems.Sound.{IsSound, pattern_problems-eq-nil_iff}

abbrev pattern : Text
pattern = codes "search for {term}"

abbrev params : List Text
params = codes "term" ∷ []

no_problems : pattern_problems pattern params ≡ []
unfolding pattern_problems
no_problems = refl

problems :
    pattern_problems (codes "{a}{a}") params
    ≡ no_anchor
      ∷ adjacent_captures (codes "a") (codes "a")
      ∷ duplicate_capture (codes "a")
      ∷ unknown_capture (codes "a") none
      ∷ unknown_capture (codes "a") none
      ∷ []
unfolding pattern_problems levenshtein
problems = refl

found : match_pattern pattern (codes "search for 'a b'") ≡ some ((codes "term", codes "a b") ∷ [])
unfolding match_pattern
found = refl

pattern_problems-eq-nil_iff_example :
    (pattern_problems pattern params ≡ []) ↔ IsSound params (tokenize pattern)
pattern_problems-eq-nil_iff_example = pattern_problems-eq-nil_iff pattern params
