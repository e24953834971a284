-- ===== src/Binding/Bound.antt =====
-- crates/proef-core/src/bind.rs: which steps are bound, and to what.
use proef.Base.{
  ◌≡◌, refl, sym, ap, subst, ◌∙◌, ◌↔◌, Bool, true, false, Option, none, some, List, [], ◌∷◌, any,
  is_some, All, All-map, inl, inr, Bool-cases, Option-cases, arith,
}
use proef.Base.Texts.{Text}
use proef.Base.Maps.{Map, lookup}
use proef.Binding.{
  StepDefn, ScenarioDef, Macro, Macros, Candidate, BoundStep, BoundScenario, Binding, bound,
  refused, is_error, step_defs, candidates, fill_args, bind_matched, bind_to, bind_step, add_step,
  bind_steps, bind_scenario, bind_scenarios, bind_collect, bind,
}
use proef.Binding.Reports.{Diag, unbound_step, ambiguous_step}
use proef.Binding.Arguments.{supplied, lookup-fill_args}
use proef.Binding.Complete.{IsFine, IsFine-append, FitsTable, fill_args-IsFine}
use proef.Binding.Known.{IsNamed, candidates-known}

-- The bound step `b` calls the macro of the one pattern that matches the authored step, whose data
-- table the macro has a place for, with every parameter's value from where it belongs.
abbrev Calls : StepDefn → BoundStep → Map Text → Macro → Type 0
Calls step b captures m =
    (b.defn ≡ step)
    × FitsTable m captures step.table
    × ((k : Text) → lookup k b.args ≡ supplied step m captures k)
    × All (λ p. is_some (lookup p b.args) ≡ true) m.params

abbrev pub Binds : Macros → StepDefn → BoundStep → Type 0
Binds macros step b =
    (pattern : Text) × (captures : Map Text) × (m : Macro) × (candidates (step_defs macros)
        step.text
      ≡ (pattern, (b.macro_name, captures)) ∷ [])
    × (lookup b.macro_name macros ≡ some m)
    × Calls step b captures m

abbrev Made : Macros → StepDefn → Option BoundStep × List Diag → Type 0
Made macros step r = (b : BoundStep) × (r.0 ≡ some b) × Binds macros step b

module _ (macros : Macros) (step : StepDefn) where
  bind_to-Made :
      (pattern name : Text) (captures : Map Text) (m : Macro)
      → candidates (step_defs macros) step.text ≡ (pattern, (name, captures)) ∷ []
      → lookup name macros ≡ some m
      → IsFine (bind_to step name captures (some m)).1
      → Made macros step (bind_to step name captures (some m))
  bind_to-Made pattern name captures m e f h =
      let a = (fill_args-IsFine step m captures).0 h in
      (
        record { defn = step; macro_name = name; args = (fill_args step m captures).0 },
        refl,
        (pattern, captures, m, e, f, (refl, a.0, lookup-fill_args step m captures, a.1)),
      )

  bind_matched-Made :
      (cs : List Candidate)
      → candidates (step_defs macros) step.text ≡ cs
      → All (λ (c : Candidate). is_some (lookup c.1.0 macros) ≡ true) cs
      → IsFine (bind_matched macros (step_defs macros) step cs).1
      → Made macros step (bind_matched macros (step_defs macros) step cs)
  unfolding unbound_step ambiguous_step
  bind_matched-Made [] e known h = ground arith
  bind_matched-Made ((pattern, (name, captures)) ∷ []) e known h =
      elim (Option-cases (lookup name macros)) [
        | inl f ↦ ground arith
        | inr (m, f) ↦ rw f (
            bind_to-Made pattern name captures m e f
              (subst (λ o. IsFine (bind_to step name captures o).1) f h))
      ]
  bind_matched-Made (c ∷ d ∷ cs) e known h = ground arith

  bind_step-Made :
      IsNamed macros
      → IsFine (bind_step macros (step_defs macros) step).1
      → Made macros step (bind_step macros (step_defs macros) step)
  unfolding bind_step
  bind_step-Made h fine =
      bind_matched-Made (candidates (step_defs macros) step.text) refl
        (candidates-known macros step.text h) fine

  bind_step-IsFine :
      (b : BoundStep) → Binds macros step b → IsFine (bind_step macros (step_defs macros) step).1
  unfolding bind_step
  bind_step-IsFine b (pattern, captures, m, e, f, (_, fits, args, all)) =
      rw (e, f)
        ((fill_args-IsFine step m captures).1 (
          fits,
          All-map
              (λ k given. ap is_some (lookup-fill_args step m captures k ∙ sym (args k)) ∙ given)
              m.params all,
        ))

-- Each item of the first list with the one of the second at its place.
abbrev pub Pairs : {A B : Type 0} → (A → B → Type 0) → List A → List B → Type 0
Pairs P [] [] = Unit
Pairs P [] (_ ∷ _) = ⊥
Pairs P (_ ∷ _) [] = ⊥
Pairs P (x ∷ xs) (y ∷ ys) = P x y × Pairs P xs ys

add_step-IsFine :
    (r : Option BoundStep × List Diag) (rest : List BoundStep × List Diag)
    → IsFine (add_step r rest).1 ↔ IsFine r.1 × IsFine rest.1
add_step-IsFine (none, diags) (steps, more) = IsFine-append diags more
add_step-IsFine (some b, diags) (steps, more) = IsFine-append diags more

add_step-some :
    (r : Option BoundStep × List Diag) (rest : List BoundStep × List Diag) (b : BoundStep)
    → r.0 ≡ some b
    → (add_step r rest).0 ≡ b ∷ rest.0
add_step-some (none, diags) (steps, more) b e = ground arith
add_step-some (some c, diags) (steps, more) b e = ground arith

abbrev pub BindsScenario : Macros → ScenarioDef → BoundScenario → Type 0
BindsScenario macros s b =
    (b.name ≡ s.name) × (b.tags ≡ s.tags) × (b.line ≡ s.line) × Pairs (Binds macros) s.steps b.steps

-- A step that can be bound, and a feature of such steps.
abbrev pub Accepts : Macros → StepDefn → Type 0
Accepts macros step = (b : BoundStep) × Binds macros step b

module _ (macros : Macros) (named : IsNamed macros) where
  bind_steps-Binds :
      (steps : List StepDefn)
      → IsFine (bind_steps macros (step_defs macros) steps).1
      → Pairs (Binds macros) steps (bind_steps macros (step_defs macros) steps).0
  unfolding bind_steps
  bind_steps-Binds [] fine = tt
  bind_steps-Binds (step ∷ steps) fine =
      let r : Option BoundStep × List Diag = bind_step macros (step_defs macros) step in
      let rest : List BoundStep × List Diag = bind_steps macros (step_defs macros) steps in
      let h = (add_step-IsFine r rest).0 fine in
      let a = bind_step-Made macros step named h.0 in
      subst (Pairs (Binds macros) (step ∷ steps)) (sym (add_step-some r rest a.0 a.1))
        (a.2, bind_steps-Binds steps h.1)

  bind_steps-IsFine :
      (steps : List StepDefn)
      → IsFine (bind_steps macros (step_defs macros) steps).1 ↔ All (Accepts macros) steps
  unfolding bind_steps
  bind_steps-IsFine [] = (λ h. tt, λ h. refl)
  bind_steps-IsFine (step ∷ steps) =
      let r : Option BoundStep × List Diag = bind_step macros (step_defs macros) step in
      let rest : List BoundStep × List Diag = bind_steps macros (step_defs macros) steps in
      let both = add_step-IsFine r rest in
      let later = bind_steps-IsFine steps in
      (
        λ h.
            let a = bind_step-Made macros step named (both.0 h).0 in
            ((a.0, a.2), later.0 (both.0 h).1),
        λ h. both.1 (bind_step-IsFine macros step h.0.0 h.0.1, later.1 h.1),
      )

  bind_scenarios-Binds :
      (scenarios : List ScenarioDef)
      → IsFine (bind_scenarios macros (step_defs macros) scenarios).1
      → Pairs
          (BindsScenario macros)
          scenarios
          (bind_scenarios macros (step_defs macros) scenarios).0
  unfolding bind_scenarios bind_scenario
  bind_scenarios-Binds [] fine = tt
  bind_scenarios-Binds (s ∷ ss) fine =
      let here : List Diag = (bind_steps macros (step_defs macros) s.steps).1 in
      let later : List Diag = (bind_scenarios macros (step_defs macros) ss).1 in
      let h = (IsFine-append here later).0 fine in
      ((refl, refl, refl, bind_steps-Binds s.steps h.0), bind_scenarios-Binds ss h.1)

  bind_scenarios-IsFine :
      (scenarios : List ScenarioDef)
      → IsFine (bind_scenarios macros (step_defs macros) scenarios).1
        ↔ All (λ (s : ScenarioDef). All (Accepts macros) s.steps) scenarios
  unfolding bind_scenarios bind_scenario
  bind_scenarios-IsFine [] = (λ h. tt, λ h. refl)
  bind_scenarios-IsFine (s ∷ ss) =
      let here : List Diag = (bind_steps macros (step_defs macros) s.steps).1 in
      let later : List Diag = (bind_scenarios macros (step_defs macros) ss).1 in
      let both = IsFine-append here later in
      let first = bind_steps-IsFine s.steps in
      let rest = bind_scenarios-IsFine ss in
      (λ h. (first.0 (both.0 h).0, rest.0 (both.0 h).1), λ h. both.1 (first.1 h.0, rest.1 h.1))

abbrev pub is_bound : Binding → Bool
is_bound (bound _) = true
is_bound (refused _) = false

-- When the macros are kept under their names, a feature is bound exactly when for each of its steps
-- there is exactly one pattern of a macro that matches the text, every row of the step's data table
-- is a pair of a key that the macro declares, that is not captured and that no other row has, and
-- every parameter of the macro has a value from the docstring, the captures, the table or the
-- defaults.
pub bind_iff :
    (macros : Macros) (scenarios : List ScenarioDef)
    → IsNamed macros
    → (is_bound (bind scenarios macros) ≡ true)
      ↔ All (λ (s : ScenarioDef). All (Accepts macros) s.steps) scenarios
unfolding bind bind_collect
bind_iff macros scenarios named =
    let h = bind_scenarios-IsFine macros named scenarios in
    (λ b. h.0 (ground arith), λ a. let fine = h.1 a in ground arith)

-- When the macros are kept under their names and a feature is bound, its scenarios keep their order,
-- names, tags and lines, and each of their steps calls, at its place, the macro of the only pattern
-- that matches it; a parameter has as its argument the docstring if it is named for it and declared,
-- else its capture, else its row of the data table, else its default, and no declared parameter is
-- without one.
pub bind-BindsScenario :
    (macros : Macros) (scenarios : List ScenarioDef) (out : List BoundScenario)
    → IsNamed macros
    → bind scenarios macros ≡ bound out
    → Pairs (BindsScenario macros) scenarios out
unfolding bind bind_collect
bind-BindsScenario macros scenarios out named e =
    let r : List BoundScenario × List Diag = bind_scenarios macros (step_defs macros) scenarios in
    elim (Bool-cases (any is_error r.1)) [
      | inl bad ↦ ground arith
      | inr fine ↦
          subst (Pairs (BindsScenario macros) scenarios) (ground arith)
            (bind_scenarios-Binds macros named scenarios fine)
    ]
