-- ===== src/Distance.antt =====
-- crates/proef-core/src/matcher.rs: edit distance and the "did you mean" suggestions.
pub mod Suggest
mod Rows
mod Edits
mod Nearest
mod Tests
use mathlib.Core.Option
use proef.Base.{
  ℕ, zero, suc, ◌+◌, ◌-◌, ◌≡◌, Bool, true, false, Option, none, some, List, [], ◌∷◌, min, length,
  ltb, leb, ◌==◌, if◌then◌else◌,
}
use proef.Base.Texts.{Text}

-- `usize::from(ca != *cb)`
abbrev cost : ℕ → ℕ → ℕ
cost a b = if a == b then 0 else 1

-- The inner loop of `levenshtein`, from column `j + 1` on: `diagonal` is the old `row[j]`, `left`
-- the new one, and the list holds the old cells that are still to be replaced.
fill_row : ℕ → (diagonal left : ℕ) → Text → List ℕ → List ℕ
fill_row ca diagonal left [] old = []
fill_row ca diagonal left (cb ∷ bs) [] = []
fill_row ca diagonal left (cb ∷ bs) (up ∷ old) =
    let cell = min (min (diagonal + cost ca cb) (left + 1)) (up + 1) in
    cell ∷ fill_row ca up cell bs old

-- The outer loop: `i` characters of `a` are done.
rows : (i : ℕ) → Text → Text → List ℕ → List ℕ
unfolding fill_row
rows i [] b row = row
rows i (ca ∷ a) b [] = []
rows i (ca ∷ a) b (diagonal ∷ old) = rows (i + 1) a b ((i + 1) ∷ fill_row ca diagonal (i + 1) b old)

-- `(first..=first + n)`
range_inclusive : ℕ → ℕ → List ℕ
range_inclusive first zero = first ∷ []
range_inclusive first (suc n) = first ∷ range_inclusive (suc first) n

get_or : List ℕ → ℕ → ℕ
get_or [] i = 0
get_or (x ∷ xs) zero = x
get_or (x ∷ xs) (suc i) = get_or xs i

unfoldable pub levenshtein : Text → Text → ℕ
unfolding rows range_inclusive get_or
levenshtein a b = get_or (rows 0 a b (range_inclusive 0 (length b))) (length b)

abbrev pub suggestion_distance : ℕ
suggestion_distance = 3

abbrev abs_diff : ℕ → ℕ → ℕ
abs_diff a b = (a - b) + (b - a)

-- `min_by_key` on the distance, the first of several least ones.
keep_nearer : ℕ × Text → Option (ℕ × Text) → Option (ℕ × Text)
keep_nearer (d, c) none = some (d, c)
keep_nearer (d, c) (some (d', c')) = if leb d d' then some (d, c) else some (d', c')

unfoldable pub min_by_distance : List (ℕ × Text) → Option (ℕ × Text)
unfolding keep_nearer
min_by_distance [] = none
min_by_distance (c ∷ rest) = keep_nearer c (min_by_distance rest)

-- The chain of filters of `closest`, one candidate at a time.
near : Text → List Text → List (ℕ × Text)
near input [] = []
near input (c ∷ cs) =
    let rest = near input cs in
    if leb (abs_diff (length c) (length input)) suggestion_distance
    then (if leb (levenshtein input c) suggestion_distance
        then (levenshtein input c, c) ∷ rest
        else rest)
    else rest

unfoldable pub closest : Text → List Text → Option Text
unfolding near min_by_distance
closest input candidates =
    Option.map (λ (m : ℕ × Text). m.1) (min_by_distance (near input candidates))
