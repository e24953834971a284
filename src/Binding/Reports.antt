-- ===== src/Binding/Reports.antt =====
-- crates/proef-core/src/bind.rs: the diagnostics of the binder, with their messages.
use mathlib.Core.Option
use proef.Base.{
  ℕ, zero, suc, Bool, Option, none, some, List, [], ◌∷◌, ◌++◌, length, min, leb, ◌==◌, ◌||◌,
  if◌then◌else◌,
}
use proef.Base.Texts.{Text, codes, trim}
use proef.Base.Maps.{Map}
use proef.Base.Printing.{decimal}
use proef.Matcher.{literal_skeleton}
use proef.Distance.{levenshtein, min_by_distance}
use proef.Distance.Suggest.{Suggestion, suggest_or_enumerate, join}

pub data Severity : Type 0 where
  error warning : Severity

pub record Diag : Type 0 where
  pub code : Text
  pub severity : Severity
  pub message : Text
  pub span : ℕ × ℕ
  pub help : Option Text

-- `chars().take(n)`
abbrev clip : ℕ → Text → Text
clip zero t = []
clip (suc n) [] = []
clip (suc n) (c ∷ t) = c ∷ clip n t

-- The least distance of the step, whole or clipped, to a pattern's literal text.
pattern_distance : Text → Text → ℕ
unfolding literal_skeleton trim levenshtein
pattern_distance step_text pattern =
    let skeleton = trim (literal_skeleton pattern) in
    min (levenshtein step_text skeleton) (levenshtein (clip (length skeleton) step_text) skeleton)

close_patterns : Text → List (Text × Text) → List (ℕ × Text)
unfolding pattern_distance
close_patterns step_text [] = []
close_patterns step_text ((pattern, _) ∷ defs) =
    let distance = pattern_distance step_text pattern in
    let rest = close_patterns step_text defs in
    if leb distance 3 then (distance, pattern) ∷ rest else rest

unfoldable pub closest_pattern : Text → List (Text × Text) → Option Text
unfolding close_patterns min_by_distance
closest_pattern step_text defs =
    Option.map (λ (m : ℕ × Text). m.1) (min_by_distance (close_patterns step_text defs))

abbrev is_quote : ℕ → Bool
is_quote c = c == 34 || c == 39

abbrev next_capture : ℕ → Text
next_capture arg = codes "{arg" ++ (decimal (suc arg) ++ codes "}")

-- The loop of `macro_stub`: inside the quotes `quoted`, or outside, with `arg` captures so far.
stub_pattern : (quoted : Option ℕ) → (arg : ℕ) → Text → Text
unfolding decimal
stub_pattern none arg [] = []
stub_pattern (some q) arg [] = next_capture arg
stub_pattern none arg (c ∷ s) =
    let inside = stub_pattern (some c) arg s in
    let outside = stub_pattern none arg s in if is_quote c then inside else c ∷ outside
stub_pattern (some q) arg (c ∷ s) =
    let inside = stub_pattern (some q) arg s in
    let outside = stub_pattern none (suc arg) s in
    if c == q then next_capture arg ++ outside else inside

unfoldable pub macro_stub : Text → Text
unfolding stub_pattern
macro_stub step_text =
    codes
      "match a sentence the suite's packs already bind, or add a macro to a pack:\n\nmacros:\n  newMacro:\n    match: "
    ++ (stub_pattern none 0 step_text
        ++ codes
            "\n    steps:\n      - hurl: |\n          GET ${url:base}/PATH\n          HTTP 200")

abbrev tail_of : Option Text → Text
tail_of none = []
tail_of (some p) = codes " — did you mean `" ++ (p ++ codes "`?")

unfoldable pub unbound_step : ℕ × ℕ → Text → List (Text × Text) → Diag
unfolding closest_pattern macro_stub
unbound_step span text defs = record {
  code = codes "proef::bind::unbound_step";
  severity = error;
  message =
      codes "no macro matches `" ++ (text ++ (codes "`" ++ tail_of (closest_pattern text defs)));
  span = span;
  help = some (macro_stub text);
}

listed : List (Text × (Text × Map Text)) → List Text
listed [] = []
listed ((pattern, (name, _)) ∷ cs) =
    (codes "`" ++ (name ++ (codes "` (" ++ (pattern ++ codes ")")))) ∷ listed cs

unfoldable pub ambiguous_step : ℕ × ℕ → Text → List (Text × (Text × Map Text)) → Diag
unfolding listed join decimal
ambiguous_step span text cs = record {
  code = codes "proef::bind::ambiguous_step";
  severity = error;
  message =
      codes "`"
      ++ (text
          ++ (codes "` matches "
              ++ (decimal (length cs) ++ (codes " macros: " ++ join (listed cs)))));
  span = span;
  help = some (
      codes
        "make one pattern more specific (add a literal word) or retire the duplicate — every sentence must bind to exactly one macro");
}

unfoldable pub bad_table : ℕ × ℕ → List Text → Diag
unfolding decimal
bad_table span row = record {
  code = codes "proef::bind::bad_table";
  severity = error;
  message =
      codes "data tables merge as `| key | value |` — this row has "
      ++ (decimal (length row) ++ codes " cells");
  span = span;
  help = none;
}

unfoldable pub table_conflict : ℕ × ℕ → Text → Diag
table_conflict span key = record {
  code = codes "proef::bind::table_conflict";
  severity = error;
  message = codes "`" ++ (key ++ codes "` is set both by a `{capture}` and the data table");
  span = span;
  help = some (
      codes
        "one source per param: drop the table row, or remove the `{capture}` from the `match:` sentence");
}

unfoldable pub unknown_table_key : ℕ × ℕ → Text → Text → List Text → Diag
unfolding suggest_or_enumerate
unknown_table_key span key name params =
    let suggestion : Suggestion = suggest_or_enumerate key params none in
    record {
      code = codes "proef::bind::unknown_table_key";
      severity = error;
      message =
          codes "`"
          ++ (key
              ++ (codes "` is not a param of macro `" ++ (name ++ (codes "`" ++ suggestion.tail))));
      span = span;
      help = none;
    }

unfoldable pub docstring_unused : ℕ × ℕ → Text → Diag
docstring_unused span name = record {
  code = codes "proef::bind::docstring_unused";
  severity = warning;
  message =
      codes "this step has a docstring but macro `"
      ++ (name ++ codes "` declares no `docstring` param — ignored");
  span = span;
  help = none;
}

unfoldable pub missing_param : ℕ × ℕ → Text → Text → Diag
missing_param span name param = record {
  code = codes "proef::bind::missing_param";
  severity = error;
  message =
      codes "macro `"
      ++ (name
          ++ (codes "` needs `"
              ++ (param
                  ++ (codes "` — add a `{"
                      ++ (param ++ codes "}` capture, a data-table row, or a default")))));
  span = span;
  help = none;
}
