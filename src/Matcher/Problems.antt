-- ===== src/Matcher/Problems.antt =====
-- crates/proef-core/src/matcher.rs: the guard rails on a `match:` pattern (`pattern_problems`).
mod Sound
mod Kept
mod Tests
use proef.Base.{
  ℕ, ◌≡◌, Bool, true, false, not, Option, some, none, List, [], ◌∷◌, ◌++◌, any, ◌==◌, ◌&&◌, ◌||◌,
  if◌then◌else◌,
}
use proef.Base.Texts.{Text, text_eq, trim, codes}
use proef.Base.Maps.{TextSet, contains, set_insert}
use proef.Distance.{closest}
use proef.Matcher.{Token, literal, capture, is_empty, tokenize, open_brace, close_brace}

pub data PatternProblem : Type 0 where
  no_anchor : PatternProblem
  adjacent_captures : (first second : Text) → PatternProblem
  unsupported_braces : (near : Text) → PatternProblem
  empty_capture : PatternProblem
  unknown_capture : (name : Text) → (suggestion : Option Text) → PatternProblem
  duplicate_capture : (name : Text) → PatternProblem

-- `PatternProblem::code`
pub code : PatternProblem → Text
code no_anchor = codes "proef::pack::pattern_no_anchor"
code (adjacent_captures _ _) = codes "proef::pack::adjacent_captures"
code (unsupported_braces _) = codes "proef::pack::pattern_braces"
code empty_capture = codes "proef::pack::pattern_empty_capture"
code (unknown_capture _ _) = codes "proef::pack::pattern_unknown_capture"
code (duplicate_capture _) = codes "proef::pack::pattern_duplicate_capture"

is_anchor : Token → Bool
unfolding is_empty trim
is_anchor (literal lit) = not (is_empty (trim lit))
is_anchor (capture _) = false

-- `tokens.windows(2)`, at a token and those behind it.
adjacent_at : Token → List Token → List PatternProblem
adjacent_at (capture a) (capture b ∷ _) = adjacent_captures a b ∷ []
adjacent_at _ _ = []

adjacent : List Token → List PatternProblem
unfolding adjacent_at
adjacent [] = []
adjacent (t ∷ ts) = adjacent_at t ts ++ adjacent ts

-- `problems.contains(&dup)`
reported : Text → List PatternProblem → Bool
unfolding text_eq
reported name [] = false
reported name (duplicate_capture n ∷ ps) = text_eq n name || reported name ps
reported name (no_anchor ∷ ps) = reported name ps
reported name (adjacent_captures _ _ ∷ ps) = reported name ps
reported name (unsupported_braces _ ∷ ps) = reported name ps
reported name (empty_capture ∷ ps) = reported name ps
reported name (unknown_capture _ _ ∷ ps) = reported name ps

note_duplicate : TextSet → List PatternProblem → Text → List PatternProblem
unfolding contains reported
note_duplicate seen problems name =
    if contains name seen && not (reported name problems)
    then problems ++ duplicate_capture name ∷ []
    else problems

duplicates : TextSet → List PatternProblem → List Token → List PatternProblem
unfolding note_duplicate set_insert
duplicates seen problems [] = problems
duplicates seen problems (literal _ ∷ ts) = duplicates seen problems ts
duplicates seen problems (capture name ∷ ts) =
    duplicates (set_insert name seen) (note_duplicate seen problems name) ts

-- `str::contains` for a character.
has_char : ℕ → Text → Bool
has_char c s = any (λ x. x == c) s

token_problem : List Text → Token → List PatternProblem
unfolding has_char trim is_empty text_eq closest
token_problem params (literal lit) =
    if has_char open_brace lit || has_char close_brace lit
    then unsupported_braces (trim lit) ∷ []
    else []
token_problem params (capture name) =
    if is_empty name
    then empty_capture ∷ []
    else if not (any (λ p. text_eq p name) params)
    then unknown_capture name (closest name params) ∷ []
    else []

token_problems : List Text → List Token → List PatternProblem
unfolding token_problem
token_problems params [] = []
token_problems params (t ∷ ts) = token_problem params t ++ token_problems params ts

unfoldable pub pattern_problems : Text → List Text → List PatternProblem
unfolding tokenize is_anchor adjacent duplicates token_problems
pattern_problems pattern params =
    let tokens = tokenize pattern in
    let anchored : List PatternProblem = if any is_anchor tokens then [] else no_anchor ∷ [] in
    duplicates [] (anchored ++ adjacent tokens) tokens ++ token_problems params tokens
