-- ===== src/Lowering/Options.antt =====
-- crates/proef-core/src/lower.rs: the values that a binding gives a hurl variable.

use proef.Base.{
  ℕ, zero, suc, Bool, false, not, Option, none, some, [], ◌∷◌, ◌++◌, any, ◌==◌, ◌&&◌, ◌||◌,
  if◌then◌else◌, length, is_some,
}
use proef.Base.Texts.{Text, codes, strip_prefix, trim}
use proef.Matcher.{is_empty}
use proef.Resolve.{Reference, first_reference}

abbrev secret_prefix : Text
secret_prefix = codes "secret:"

-- Neither `{` nor `$` may stand in the name of a secret.
abbrev is_marker : ℕ → Bool
is_marker c = c == 123 || c == 36

secret_name : Option Text → Option Text
unfolding trim is_empty
secret_name none = none
secret_name (some rest) =
    let inner = trim rest in
    if not (is_empty inner) && not (any is_marker inner) then some inner else none

-- A reference with nothing around it.
alone : Option Reference → Option Text
unfolding secret_name strip_prefix
alone (some ([], (name, []))) = secret_name (strip_prefix secret_prefix name)
alone other = none

unfoldable pub whole_secret : Text → Option Text
unfolding alone first_reference trim
whole_secret value = alone (first_reference (trim value))

-- The loop of `mentions_secret`. Each round takes a reference off the text.
mentions_from : ℕ → Text → Bool
unfolding first_reference strip_prefix
mentions_from zero rest = false
mentions_from (suc fuel) rest = elim (first_reference rest) [
  | none ↦ false
  | some (_, (name, after)) ↦ is_some (strip_prefix secret_prefix name) || mentions_from fuel after
]

unfoldable pub mentions_secret : Text → Bool
unfolding mentions_from
mentions_secret value = mentions_from (suc (length value)) value

-- `str::replace` of one character.
unfoldable pub replace_char : ℕ → Text → Text → Text
replace_char c by [] = []
replace_char c by (x ∷ t) =
    let rest = replace_char c by t in if x == c then by ++ rest else x ∷ rest

abbrev pub quote : ℕ
quote = 34

abbrev pub backslash : ℕ
backslash = 92

unfoldable pub quote_option : Text → Text
unfolding replace_char
quote_option value =
    replace_char quote (backslash ∷ quote ∷ [])
      (replace_char backslash (backslash ∷ backslash ∷ []) value)

unfoldable pub variable_option_line : Text → Text → Text
unfolding quote_option
variable_option_line name value =
    codes "variable: " ++ (name ++ (codes "=\"" ++ (quote_option value ++ codes "\"")))
