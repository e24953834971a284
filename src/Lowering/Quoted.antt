-- ===== src/Lowering/Quoted.antt =====
-- crates/proef-core/src/lower.rs: a bound value stays inside its quotes.
use proef.Base.{
  ℕ, ◌≡◌, refl, sym, ap, ◌∙◌, Bool, true, false, Option, none, some, [], ◌∷◌, ◌++◌, ◌==◌,
  if◌then◌else◌, append_assoc, arith,
}
use proef.Base.Texts.{Text, codes, strip_prefix}
use mathlib.Core.Option
use proef.Base.Finding.{strip_prefix-append}
use proef.Lowering.Options.{quote, backslash, replace_char, quote_option, variable_option_line}

-- What a reader takes for the text up to the closing quote, when a backslash stands for the next
-- character, and what is left behind the quote.
abbrev pub keep : ℕ → Option (Text × Text) → Option (Text × Text)
keep c r = Option.map (λ (p : Text × Text). (c ∷ p.0, p.1)) r

abbrev pub read_quoted : (escaped : Bool) → Text → Option (Text × Text)
read_quoted escaped [] = none
read_quoted true (c ∷ t) = keep c (read_quoted false t)
read_quoted false (c ∷ t) =
    let as_is = keep c (read_quoted false t) in
    let next = read_quoted true t in
    if c == quote then some ([], t) else if c == backslash then next else as_is

read_quoted-quote_option :
    (value rest : Text)
    → read_quoted false (quote_option value ++ (quote ∷ rest)) ≡ some (value, rest)
unfolding quote_option replace_char
read_quoted-quote_option [] rest = refl
read_quoted-quote_option (c ∷ value) rest =
    let later = read_quoted-quote_option value rest in ground (arith, later)

abbrev pub option_head : Text → Text
option_head name = codes "variable: " ++ (name ++ codes "=\"")

abbrev pub read_behind : Option Text → Option (Text × Text)
read_behind none = none
read_behind (some quoted) = read_quoted false quoted

-- What an option line binds: the value in the quotes behind the variable's name, and what follows.
abbrev pub read_option : Text → Text → Option (Text × Text)
read_option name line = read_behind (strip_prefix (option_head name) line)

option_head-append :
    (name rest : Text)
    → codes "variable: " ++ (name ++ (codes "=\"" ++ rest)) ≡ option_head name ++ rest
option_head-append name rest =
    ap (λ t. codes "variable: " ++ t) (sym (append_assoc name (codes "=\"") rest))

-- Whatever the value, a reader for whom a backslash stands for the next character takes the whole
-- value from the option line of a variable, and nothing is left behind it.
pub read_option-variable_option_line :
    (name value : Text) → read_option name (variable_option_line name value) ≡ some (value, [])
unfolding variable_option_line
read_option-variable_option_line name value =
    let quoted = quote_option value ++ codes "\"" in
    ap (read_option name) (option_head-append name quoted)
    ∙ ap read_behind (strip_prefix-append (option_head name) quoted)
    ∙ read_quoted-quote_option value []
