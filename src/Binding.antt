-- ===== src/Binding.antt =====
-- crates/proef-core/src/bind.rs: the binding of each authored step to the macro whose pattern it
-- matches. A diagnostic is without its source text and the editor's quick fix.
pub mod Reports
mod Arguments
mod Known
mod Complete
mod Bound
mod Tests
use proef.Base.{
  ℕ, zero, suc, ◌+◌, Bool, true, false, Option, none, some, List, [], ◌∷◌, ◌++◌, map, any, is_some,
  ◌||◌, if◌then◌else◌,
}
use proef.Base.Texts.{Text, codes}
use proef.Base.Maps.{Map, lookup, insert, contains}
use proef.Matcher.{match_pattern}
use Reports.{
  Severity, error, warning, Diag, unbound_step, ambiguous_step, bad_table, table_conflict,
  unknown_table_key, docstring_unused, missing_param,
}

-- A span is a pair of byte offsets.
pub record StepDefn : Type 0 where
  pub text : Text
  pub table : Option (List (List Text))
  pub docstring : Option Text
  pub line : ℕ
  pub span : ℕ × ℕ

pub record ScenarioDef : Type 0 where
  pub name : Text
  pub tags : List Text
  pub steps : List StepDefn
  pub line : ℕ

-- The fields that the binder reads.
pub record Macro : Type 0 where
  pub name : Text
  pub params : List Text
  pub defaults : Map Text
  pub pattern : Option Text

pub record BoundStep : Type 0 where
  pub defn : StepDefn
  pub macro_name : Text
  pub args : Map Text

pub record BoundScenario : Type 0 where
  pub name : Text
  pub tags : List Text
  pub line : ℕ
  pub steps : List BoundStep

-- The `macros` of a `PackSet`.
abbrev pub Macros : Type 0
Macros = Map Macro

-- The pairs of a pattern and the name of its macro.
abbrev pub Defs : Type 0
Defs = List (Text × Text)

unfoldable pub step_defs : Macros → Defs
step_defs [] = []
step_defs ((_, m) ∷ macros) = elim (m.pattern) [
  | none ↦ step_defs macros
  | some p ↦ (p, m.name) ∷ step_defs macros
]

-- A pattern that matches, its macro, and what its captures hold.
abbrev pub Candidate : Type 0
Candidate = Text × (Text × Map Text)

unfoldable pub candidates : Defs → Text → List Candidate
unfolding match_pattern
candidates [] text = []
candidates ((pattern, name) ∷ defs) text = elim (match_pattern pattern text) [
  | none ↦ candidates defs text
  | some args ↦ (pattern, (name, args)) ∷ candidates defs text
]

-- The arguments so far, and the diagnostics in the order they are pushed.
abbrev pub Filled : Type 0
Filled = Map Text × List Diag

abbrev pub push : Diag → Filled → Filled
push d (args, diags) = (args, diags ++ (d ∷ []))

-- A row `| key | value |`.
abbrev pub pair_row : StepDefn → Macro → Text → Text → Filled → Filled
pair_row step m key value (args, diags) =
    if is_some (lookup key args)
    then push (table_conflict step.span key) (args, diags)
    else if contains key m.params
    then (insert key value args, diags)
    else push (unknown_table_key step.span key m.name m.params) (args, diags)

-- A row that is no pair is reported and left out.
abbrev pub table_row : StepDefn → Macro → List Text → Filled → Filled
table_row step m (key ∷ value ∷ []) f = pair_row step m key value f
table_row step m row f = push (bad_table step.span row) f

unfoldable pub table_rows : StepDefn → Macro → List (List Text) → Filled → Filled
unfolding lookup insert contains bad_table table_conflict unknown_table_key
table_rows step m [] f = f
table_rows step m (row ∷ rows) f = table_rows step m rows (table_row step m row f)

abbrev pub fill_table : StepDefn → Macro → Option (List (List Text)) → Filled → Filled
fill_table step m none f = f
fill_table step m (some rows) f = table_rows step m rows f

abbrev pub docstring_param : Text
docstring_param = codes "docstring"

abbrev pub fill_docstring : StepDefn → Macro → Option Text → Filled → Filled
fill_docstring step m none f = f
fill_docstring step m (some docstring) (args, diags) =
    if contains docstring_param m.params
    then (insert docstring_param docstring args, diags)
    else push (docstring_unused step.span m.name) (args, diags)

-- `or_insert_with` for each default.
unfoldable pub fill_defaults : Map Text → Map Text → Map Text
unfolding lookup insert
fill_defaults [] args = args
fill_defaults ((param, default) ∷ defaults) args =
    fill_defaults defaults (if is_some (lookup param args) then args else insert param default args)

-- The parameters that are still without a value.
unfoldable pub missing : StepDefn → Macro → Map Text → List Text → List Diag
unfolding lookup missing_param
missing step m args [] = []
missing step m args (param ∷ params) =
    let rest = missing step m args params in
    if is_some (lookup param args) then rest else missing_param step.span m.name param ∷ rest

unfoldable pub fill_args : StepDefn → Macro → Map Text → Filled
unfolding table_rows docstring_unused fill_defaults missing insert contains
fill_args step m captures =
    let f = fill_docstring step m step.docstring (fill_table step m step.table (captures, [])) in
    let args = fill_defaults m.defaults f.0 in (args, f.1 ++ missing step m args m.params)

abbrev pub with_args : StepDefn → Text → Filled → Option BoundStep × List Diag
with_args step name (args, diags) =
    (some (record { defn = step; macro_name = name; args = args }), diags)

-- A step that one candidate matches.
abbrev pub bind_to : StepDefn → Text → Map Text → Option Macro → Option BoundStep × List Diag
bind_to step name captures none = (none, [])
bind_to step name captures (some m) = with_args step name (fill_args step m captures)

abbrev pub bind_matched : Macros → Defs → StepDefn → List Candidate → Option BoundStep × List Diag
bind_matched macros defs step [] = (none, unbound_step step.span step.text defs ∷ [])
bind_matched macros defs step ((_, (name, captures)) ∷ []) =
    bind_to step name captures (lookup name macros)
bind_matched macros defs step (c ∷ d ∷ cs) =
    (none, ambiguous_step step.span step.text (c ∷ d ∷ cs) ∷ [])

unfoldable pub bind_step : Macros → Defs → StepDefn → Option BoundStep × List Diag
unfolding candidates fill_args unbound_step ambiguous_step lookup
bind_step macros defs step = bind_matched macros defs step (candidates defs step.text)

abbrev pub add_step :
    Option BoundStep × List Diag → List BoundStep × List Diag → List BoundStep × List Diag
add_step (none, diags) (steps, more) = (steps, diags ++ more)
add_step (some step, diags) (steps, more) = (step ∷ steps, diags ++ more)

unfoldable pub bind_steps : Macros → Defs → List StepDefn → List BoundStep × List Diag
unfolding bind_step
bind_steps macros defs [] = ([], [])
bind_steps macros defs (step ∷ steps) =
    add_step (bind_step macros defs step) (bind_steps macros defs steps)

abbrev pub with_steps : ScenarioDef → List BoundStep → BoundScenario
with_steps s steps = record { name = s.name; tags = s.tags; line = s.line; steps = steps }

unfoldable pub bind_scenario : ScenarioDef → Macros → Defs → BoundScenario × List Diag
unfolding bind_steps
bind_scenario s macros defs = let r = bind_steps macros defs s.steps in (with_steps s r.0, r.1)

unfoldable pub bind_scenarios : Macros → Defs → List ScenarioDef → List BoundScenario × List Diag
unfolding bind_scenario
bind_scenarios macros defs [] = ([], [])
bind_scenarios macros defs (s ∷ ss) =
    let r = bind_scenario s macros defs in
    let rest = bind_scenarios macros defs ss in (r.0 ∷ rest.0, r.1 ++ rest.1)

unfoldable pub bind_collect : List ScenarioDef → Macros → List BoundScenario × List Diag
unfolding bind_scenarios step_defs
bind_collect scenarios macros = bind_scenarios macros (step_defs macros) scenarios

pub data Binding : Type 0 where
  bound : List BoundScenario → Binding
  refused : List Diag → Binding

abbrev pub is_error : Diag → Bool
is_error d = elim (d.severity) [ error ↦ true | warning ↦ false ]

unfoldable pub bind : List ScenarioDef → Macros → Binding
unfolding bind_collect
bind scenarios macros =
    let r = bind_collect scenarios macros in if any is_error r.1 then refused r.1 else bound r.0
