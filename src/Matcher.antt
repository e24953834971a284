-- ===== src/Matcher.antt =====
-- crates/proef-core/src/matcher.rs: the `{name}` step matcher. A `BTreeMap` of arguments is a `Map`.
mod Tokens
mod Filling
pub mod Problems
mod Tests
use mathlib.Core.Option
use proef.Base.{
  ℕ, zero, suc, ◌+◌, ◌≡◌, Bool, true, false, Option, none, some, List, [], ◌∷◌, ◌++◌, reverse,
  foldl, length, ltb, leb, ◌==◌, if◌then◌else◌, ◌&&◌,
}
use proef.Base.Texts.{Text, strip_prefix, split_at_find, split_once_char, trim, byte_len}
use proef.Base.Maps.{Map, insert}

pub data Token : Type 0 where
  literal : Text → Token
  capture : Text → Token

abbrev pub open_brace : ℕ
open_brace = b'{'

abbrev pub close_brace : ℕ
close_brace = b'}'

unfoldable pub is_empty : Text → Bool
is_empty [] = true
is_empty (_ ∷ _) = false

-- `tokens.push(Literal(text))` unless the text is empty.
abbrev push_literal : Text → List Token → List Token
push_literal [] ts = ts
push_literal (c ∷ s) ts = literal (c ∷ s) ∷ ts

-- The `while let` of `tokenize`. The remainder of an unclosed `{` is pushed whole, behind the
-- literal text before the brace, which the code has pushed already.
tokenize_from : ℕ → Text → List Token
tokenize_from zero rest = []
tokenize_from (suc f) rest = elim (split_once_char open_brace rest) [
  | none ↦ push_literal rest []
  | some (before, after) ↦ push_literal before (elim (split_once_char close_brace after) [
    | none ↦ literal rest ∷ []
    | some (name, rest') ↦ capture (trim name) ∷ tokenize_from f rest'
  ])
]

-- Each round but the last takes a brace off the text, so its length bounds the rounds.
unfoldable pub tokenize : Text → List Token
unfolding tokenize_from split_once_char trim
tokenize pattern = tokenize_from (suc (length pattern)) pattern

strip_suffix : Text → Text → Option Text
strip_suffix suffix s = Option.map reverse (strip_prefix (reverse suffix) (reverse s))

-- The text between two quotes `q`, if the value has them.
strip_quote : ℕ → Text → Option Text
unfolding strip_suffix strip_prefix byte_len
strip_quote q value =
    if leb 2 (byte_len value)
    then elim (strip_prefix (q ∷ []) value) [ none ↦ none | some v ↦ strip_suffix (q ∷ []) v ]
    else none

abbrev pub double_quote : ℕ
double_quote = 34

abbrev pub single_quote : ℕ
single_quote = 39

unfoldable pub shed_quotes : Text → Text
unfolding strip_quote
shed_quotes value = elim (strip_quote double_quote value) [
  | some inner ↦ inner
  | none ↦ elim (strip_quote single_quote value) [ some inner ↦ inner | none ↦ value ]
]

-- The literal that ends a capture, if one follows it.
pub next_literal : List Token → Option Text
unfolding is_empty
next_literal (literal lit ∷ _) = if is_empty lit then none else some lit
next_literal _ = none

abbrev bind_value : Map Text → Text × Text → Map Text
bind_value args (name, value) = insert name (shed_quotes (trim value)) args

-- The loop of `match_pattern`, over the tokens from `index` on.
match_tokens : List Token → Text → Map Text → Option (Map Text)
unfolding is_empty
match_tokens [] rest args = if is_empty rest then some args else none
match_tokens (literal lit ∷ ts) rest args = elim (strip_prefix lit rest) [
  | none ↦ none
  | some rest' ↦ match_tokens ts rest' args
]
match_tokens (capture name ∷ ts) rest args = elim (next_literal ts) [
  | none ↦ match_tokens ts [] (bind_value args (name, rest))
  | some lit ↦ elim (split_at_find lit rest) [
    | none ↦ none
    | some (value, remainder) ↦ match_tokens ts remainder (bind_value args (name, value))
  ]
]

unfoldable pub match_pattern : Text → Text → Option (Map Text)
unfolding match_tokens next_literal tokenize shed_quotes strip_prefix split_at_find insert
match_pattern pattern text = match_tokens (tokenize pattern) text []

-- The literal text of a pattern, its captures dropped.
unfoldable pub literals : List Token → Text
literals [] = []
literals (literal s ∷ ts) = s ++ literals ts
literals (capture _ ∷ ts) = literals ts

unfoldable pub literal_skeleton : Text → Text
unfolding literals tokenize
literal_skeleton pattern = literals (tokenize pattern)
