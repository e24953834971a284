-- ===== src/Pack.antt =====
-- crates/proef-core/src/pack/mod.rs: the macros of the packs and the targets of `use:`.
pub mod Visit
pub mod Uses
pub mod Samples
use mathlib.Core.Option
use proef.Base.{
  ℕ, Bool, true, false, Option, none, some, List, [], ◌∷◌, ◌++◌, reverse, ◌||◌, ◌==◌, if◌then◌else◌,
}
use proef.Base.Texts.{Text, codes, strip_prefix, split_once_char}
use proef.Base.Maps.{Map, lookup}

-- A structured payload as the text of its JSON.
pub data PayloadForm : Type 0 where
  raw structured : Text → PayloadForm

pub data MacroStepKind : Type 0 where
  payload : Text → PayloadForm → MacroStepKind
  use_macro : Text → Map Text → MacroStepKind
  ref : Text → MacroStepKind

pub record Retry : Type 0 where
  pub count : ℕ
  pub interval_ms : ℕ

pub record MacroStep : Type 0 where
  pub name : Option Text
  pub delay_ms : Option ℕ
  pub kind : MacroStepKind
  pub optional : Bool
  pub when : Option Text
  pub retry : Option Retry
  pub save_as : Map Text
  pub bind : Map Text

pub record ExpectItem : Type 0 where
  pub status : Option Text
  pub fragment : Option Text

pub data MacroBody : Type 0 where
  steps : List MacroStep → MacroBody
  expect : List ExpectItem → MacroBody

-- A macro without its source text and spans.
pub record PackMacro : Type 0 where
  pub name : Text
  pub pack : Text
  pub params : List Text
  pub defaults : Map Text
  pub pattern : Option Text
  pub description : Option Text
  pub tags : List Text
  pub body : MacroBody
  pub bind : Map Text

-- The `macros` of a `PackSet`.
abbrev pub PackSet : Type 0
PackSet = Map PackMacro

unfoldable pub split_qualified : Text → Option Text × Text
unfolding split_once_char
split_qualified reference = elim (split_once_char b'#' reference) [
  | some (qualifier, name) ↦ (some qualifier, name)
  | none ↦ (none, reference)
]

ends_with_slash : Text → Bool
ends_with_slash [] = false
ends_with_slash (c ∷ []) = c == b'/'
ends_with_slash (c ∷ d ∷ t) = ends_with_slash (d ∷ t)

-- What is left of the text before a suffix.
bounded : Option Text → Bool
unfolding ends_with_slash
bounded none = false
bounded (some []) = true
bounded (some (c ∷ rest)) = ends_with_slash (c ∷ rest)

unfoldable pub bounded_suffix : Text → Text → Bool
unfolding bounded strip_prefix
bounded_suffix hay needle =
    bounded (Option.map reverse (strip_prefix (reverse needle) (reverse hay)))

unfoldable pub pack_ref_matches : Text → Text → Bool
unfolding bounded_suffix
pack_ref_matches pack pack_ref = bounded_suffix pack pack_ref || bounded_suffix pack_ref pack

abbrev pub matching : Option Text → Option PackMacro → Option PackMacro
matching qualifier none = none
matching none (some m) = some m
matching (some r) (some m) = if pack_ref_matches m.pack r then some m else none

unfoldable pub find_use_target : PackSet → Text → Option PackMacro
unfolding split_qualified pack_ref_matches lookup
find_use_target set target =
    let (pack_ref, name) = split_qualified target in matching pack_ref (lookup name set)
