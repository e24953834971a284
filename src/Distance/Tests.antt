-- ===== src/Distance/Tests.antt =====
-- crates/proef-core/src/matcher.rs: the suggestions at work.
use proef.Base.{◌≡◌, ◌≤◌, refl, some, List, [], ◌∷◌, ℕ}
use proef.Base.Texts.{Text, codes}
use proef.Distance.{levenshtein, closest}
use proef.Distance.Edits.{Edits}
use proef.Distance.Nearest.{levenshtein_least}

kitten : levenshtein (codes "kitten") (codes "sitting") ≡ 3
unfolding levenshtein
kitten = refl

abbrev names : List Text
names = codes "postCode" ∷ codes "city" ∷ codes "int" ∷ []

suggested : closest (codes "citi") names ≡ some (codes "city")
unfolding closest levenshtein
suggested = refl

levenshtein_least_example :
    Edits (codes "citi") (codes "city") (levenshtein (codes "citi") (codes "city"))
    × ((n : ℕ)
        → Edits (codes "citi") (codes "city") n
        → levenshtein (codes "citi") (codes "city") ≤ n)
levenshtein_least_example = levenshtein_least (codes "citi") (codes "city")
